-- ===== src/Auth/Tokens.antt =====
-- `refresh`, `logout`, `getSession` and `issueTokens` of apps/api/src/auth/auth.service.ts. Random tokens
-- are arguments; the access token, which is signed by a library, is left out of the answers. `refresh`
-- reads a row and then claims it by a conditional update, and other calls may run in between.
use serveproof.Prelude.{
  ℕ, ◌+◌, ◌*◌, Bool, not, ◌&&◌, Option, none, some, List, [], ◌∷◌, ◌++◌, Text, text_eq, leb, ◌==◌,
  if◌then◌else◌, is_some,
}
use serveproof.Prelude.Http.{Result, ok, unauthorized, require, or_throw, ◌>>=◌, ◌>>◌}
use serveproof.Prelude.Tables.{find_row, update_rows, upsert_row, count_rows}

pub record User : Type 0 where
  pub id : ℕ
  pub auth_user_id : Text
  pub email : Text
  pub display_name : Text

pub record RefreshToken : Type 0 where
  pub id : ℕ
  pub user : ℕ
  pub hash : Text
  pub expires_at : ℕ
  pub revoked_at : Option ℕ

-- The role of a user only goes into the access token.
-- `workers` and `members` are the user ids of the rows of these tables.
pub record Store : Type 0 where
  pub users : List User
  pub workers : List ℕ
  pub members : List ℕ
  pub tokens : List RefreshToken
  pub next_id : ℕ

pub data Mode : Type 0 where
  worker staff : Mode

-- Milliseconds.
abbrev pub refresh_ttl : ℕ
refresh_ttl = 7 * 24 * 60 * 60 * 1000

abbrev pub has_row : ℕ → List ℕ → Bool
has_row user rows = is_some (find_row (λ w. w == user) rows)

abbrev pub modes_of : Bool → Bool → List Mode
modes_of is_worker is_member =
    (if is_worker then worker ∷ [] else []) ++ (if is_member then staff ∷ [] else [])

unfoldable pub get_session : ℕ → Store → Result (List Mode)
unfolding find_row
get_session user st = do
  u ← or_throw (find_row (λ u. u.id == user) st.users) unauthorized
  ok (modes_of (has_row user st.workers) (has_row user st.members))

abbrev pub token_row : ℕ → ℕ → ℕ → Text → RefreshToken
token_row i now user hash = record {
  id = i;
  user = user;
  hash = hash;
  expires_at = now + refresh_ttl;
  revoked_at = none;
}

-- `sha` is SHA-256, `raw` the random token.
unfoldable pub issue_tokens : (Text → Text) → ℕ → ℕ → Text → Store → Store
unfolding upsert_row
issue_tokens sha now user raw st = record st {
  workers = upsert_row (λ w. w == user) (λ w. w) user st.workers;
  tokens = st.tokens ++ (token_row st.next_id now user (sha raw) ∷ []);
  next_id = st.next_id + 1;
}

abbrev pub is_usable : ℕ → RefreshToken → Bool
is_usable now t = not (is_some t.revoked_at) && leb now t.expires_at

-- The row that `refresh` reads.
unfoldable pub find_usable : (Text → Text) → ℕ → Text → Store → Result RefreshToken
unfolding find_row text_eq
find_usable sha now raw st = do
  stored ← or_throw (find_row (λ t. text_eq t.hash (sha raw)) st.tokens) unauthorized
  require (is_usable now stored) unauthorized
  ok stored

abbrev pub is_claimed : ℕ → ℕ → RefreshToken → Bool
is_claimed now i t = t.id == i && is_usable now t

-- `updateMany` and the test of its count.
unfoldable pub claim_token : ℕ → ℕ → Store → Result Store
unfolding update_rows count_rows
claim_token now i st = do
  require (count_rows (is_claimed now i) st.tokens == 1) unauthorized
  ok record st {
    tokens = update_rows (is_claimed now i) (λ t. record t { revoked_at = some now }) st.tokens;
  }

-- The rest of `refresh`, once the row was read.
unfoldable pub redeem : (Text → Text) → ℕ → RefreshToken → Text → Store → Result Store
unfolding claim_token issue_tokens
redeem sha now stored raw st = do
  st₁ ← claim_token now stored.id st
  ok (issue_tokens sha now stored.user raw st₁)

unfoldable pub refresh : (Text → Text) → ℕ → Text → Text → Store → Result Store
unfolding find_usable redeem
refresh sha now token raw st = do
  stored ← find_usable sha now token st
  redeem sha now stored raw st

unfoldable pub logout : (Text → Text) → ℕ → Text → Store → Store
unfolding update_rows text_eq
logout sha now token st = record st {
  tokens =
      update_rows (λ t. text_eq t.hash (sha token) && not (is_some t.revoked_at))
        (λ t. record t { revoked_at = some now }) st.tokens;
}
