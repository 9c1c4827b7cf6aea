-- ===== src/Auth/Otp.antt =====
-- `requestOtp` and `verifyOtp` of apps/api/src/auth/auth.service.ts. The random code and token, the
-- settings of the environment and whether the mail fails are arguments, and so is `toLowerCase`.
-- A failed verification throws the same exception for a missing and for a wrong code.
use serveproof.Prelude.{
  ℕ, ◌+◌, Bool, false, ◌||◌, Option, none, some, List, [], ◌∷◌, ◌++◌, Text, text, text_eq, ltb,
  if◌then◌else◌,
}
use serveproof.Prelude.Tables.{find_row}
use serveproof.Redis.{Redis}
use serveproof.Shared.Emails.{before_at, after_at}
use serveproof.Auth.Tokens.{User, Store, issue_tokens}

-- `otp:<email>` and `otp:<email>:attempts`.
pub data Key : Type 0 where
  otp attempts : Text → Key

abbrev pub same_key : Key → Key → Bool
same_key (otp e) (otp f) = text_eq e f
same_key (attempts e) (attempts f) = text_eq e f
same_key _ _ = false

abbrev pub otp_ttl : ℕ
otp_ttl = 300

abbrev pub max_attempts : ℕ
max_attempts = 5

-- What a request answers, and where its mail throws.
pub data Request : Type 0 where
  exposed : Text → Request
  mailed mail_failed : Request

-- What a verification answers, and where it throws.
pub data Login : Type 0 where
  too_many no_code wrong_code : Login
  entered : ℕ → Store → Login

unfoldable pub includes : Text → List Text → Bool
unfolding text_eq
includes domain [] = false
includes domain (d ∷ ds) = text_eq d domain || includes domain ds

abbrev pub new_user : ℕ → Text → User
new_user i email = record {
  id = i;
  auth_user_id = text "otp:" ++ email;
  email = email;
  display_name = before_at email;
}

-- The user with this address, who is created where there is none.
abbrev pub found_or_new : Text → Option User → Store → ℕ × Store
found_or_new email (some u) st = (u.id, st)
found_or_new email none st = (
  st.next_id,
  record st { users = st.users ++ (new_user st.next_id email ∷ []); next_id = st.next_id + 1 },
)

abbrev pub enter : (Text → Text) → ℕ → Text → ℕ × Store → Login
enter sha now raw (user, st) = entered user (issue_tokens sha now user raw st)

module _ (r : Redis Key) (sha lower : Text → Text) where
  abbrev pub store_code : ℕ → Text → Text → r.State → r.State
  store_code now email code s =
      r.set now (attempts email) (text "0") otp_ttl (r.set now (otp email) (sha code) otp_ttl s)

  -- `dev_domains` are the addresses' domains that get their code in the answer.
  abbrev pub answer : Bool → List Text → Bool → Text → Text → Request
  answer is_local dev_domains mail_fails email code =
      if is_local || includes (after_at (lower email)) dev_domains
      then exposed code
      else if mail_fails
      then mail_failed
      else mailed

  unfoldable pub request_otp :
      ℕ → Bool → List Text → Bool → Text → Text → r.State → r.State × Request
  unfolding includes after_at
  request_otp now is_local dev_domains mail_fails email code s =
      (store_code now (lower email) code s, answer is_local dev_domains mail_fails email code)

  abbrev pub forget_code : ℕ → Text → r.State → r.State
  forget_code now email s = r.del now (attempts email) (r.del now (otp email) s)

  abbrev pub compare_code : ℕ → Text → Text → Text → Store → Option Text → r.State → r.State × Login
  compare_code now email code raw st none s = (s, no_code)
  compare_code now email code raw st (some []) s = (s, no_code)
  compare_code now email code raw st (some (c ∷ cs)) s =
      if text_eq (c ∷ cs) (sha code)
      then (
        forget_code now email s,
        enter sha now raw (found_or_new email (find_row (λ u. text_eq u.email email) st.users) st),
      )
      else (s, wrong_code)

  -- The attempt is counted first; one too many deletes the code.
  abbrev pub check_attempt : ℕ → Text → Text → Text → Store → r.State × ℕ → r.State × Login
  check_attempt now email code raw st (s, n) =
      if ltb max_attempts n
      then (r.del now (otp email) s, too_many)
      else compare_code now email code raw st (r.get now (otp email) s) s

  unfoldable pub verify_otp : ℕ → Text → Text → Text → Store → r.State → r.State × Login
  unfolding text_eq find_row issue_tokens before_at
  verify_otp now email code raw st s =
      check_attempt now (lower email) code raw st (r.incr now (attempts (lower email)) s)
