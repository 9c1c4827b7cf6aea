-- ===== src/Auth/Once.antt =====
-- A refresh token is redeemed once (apps/api/src/auth/auth.service.ts).
use serveproof.Prelude.{
  ◌⊎◌, ==_iff, ℕ, ◌+◌, ◌≤◌, ◌<◌, ◌≡◌, inl, inr, refl, Bool, false, ◌&&◌, some, List, [], ◌∷◌, Text,
  ◌==◌, if◌then◌else◌, Bool-cases, All, All-mono, arith,
}
use serveproof.Prelude.Http.{Result, ok, err, OnOk, OnOk-bind, OnOk-require, OnOk-ok, returns}
use serveproof.Prelude.Tables.{update_rows, count_rows, All-append, All-update_rows}
use serveproof.Auth.Tokens.{
  RefreshToken, Store, issue_tokens, is_usable, is_claimed, claim_token, redeem, logout,
}

-- What the calls of the service do to the table, in the order in which they do it: the claim of a refresh
-- with the row that it read earlier, a logout, and the tokens of a login.
pub data Call : Type 0 where
  redeeming : RefreshToken → Text → Call
  leaving : Text → Call
  entering : ℕ → Text → Call

pub record Timed : Type 0 where
  pub at_ : ℕ
  pub call : Call

abbrev pub IsOrdered : ℕ → List Timed → Type 0
IsOrdered now [] = Unit
IsOrdered now (c ∷ cs) = (now ≤ c.at_) × IsOrdered c.at_ cs

abbrev pub counted : ℕ → RefreshToken → ℕ
counted i stored = if stored.id == i then 1 else 0

-- The store after a call, and whether it redeemed the token with this id.
abbrev pub redeemed : ℕ → RefreshToken → Store → Result Store → Store × ℕ
redeemed i stored st (ok st') = (st', counted i stored)
redeemed i stored st (err e) = (st, 0)

abbrev pub perform : (Text → Text) → ℕ → ℕ → Call → Store → Store × ℕ
perform sha i now (redeeming stored raw) st = redeemed i stored st (redeem sha now stored raw st)
perform sha i now (leaving token) st = (logout sha now token st, 0)
perform sha i now (entering user raw) st = (issue_tokens sha now user raw st, 0)

-- How often a history of calls redeems the token with this id.
unfoldable pub times_redeemed : (Text → Text) → ℕ → List Timed → Store → ℕ
unfolding redeem logout issue_tokens
times_redeemed sha i [] st = 0
times_redeemed sha i (c ∷ cs) st =
    (perform sha i c.at_ c.call st).1 + times_redeemed sha i cs (perform sha i c.at_ c.call st).0

-- No row of this id can be claimed from now on.
abbrev Spent : ℕ → ℕ → RefreshToken → Type 0
Spent i now t = (t.id == i && is_usable now t) ≡ false

abbrev IsSpent : ℕ → ℕ → Store → Type 0
IsSpent i now st = All (Spent i now) st.tokens × (i < st.next_id)

Spent-later : (i now later : ℕ) (t : RefreshToken) → now ≤ later → Spent i now t → Spent i later t
Spent-later i now later t h k = ground arith

Spent-revoked :
    (i now later : ℕ) (t : RefreshToken) → Spent i later (record t { revoked_at = some now })
Spent-revoked i now later t = ground arith

issue_tokens-IsSpent :
    (sha : Text → Text) (i now user : ℕ) (raw : Text) (st : Store)
    → IsSpent i now st
    → IsSpent i now (issue_tokens sha now user raw st)
unfolding issue_tokens
issue_tokens-IsSpent sha i now user raw st (spent, h) =
    (All-append (Spent i now) st.tokens (_ ∷ []) spent (ground arith, tt), omega arith)

logout-IsSpent :
    (sha : Text → Text) (i now : ℕ) (token : Text) (st : Store)
    → IsSpent i now st
    → IsSpent i now (logout sha now token st)
unfolding logout
logout-IsSpent sha i now token st (spent, h) =
    (All-update_rows (Spent i now) _ _ st.tokens (λ t k. Spent-revoked i now now t) spent, h)

count_rows-none {ℓ} :
    {A : Type ℓ} (p : A → Bool) (xs : List A) → All (λ x. p x ≡ false) xs → count_rows p xs ≡ 0
unfolding count_rows
count_rows-none p [] h = refl
count_rows-none p (x ∷ xs) h = rw h.0 (omega (arith, count_rows-none p xs h.1))

claimed-Spent :
    (i now : ℕ) (ts : List RefreshToken)
    → All
        (Spent i now)
        (update_rows (is_claimed now i) (λ t. record t { revoked_at = some now }) ts)
unfolding update_rows
claimed-Spent i now [] = tt
claimed-Spent i now (t ∷ ts) = elim (Bool-cases (is_claimed now i t)) [
  | inl e ↦ rw e (Spent-revoked i now now t, claimed-Spent i now ts)
  | inr e ↦ rw e (e, claimed-Spent i now ts)
]

update_rows-Spent :
    (i now j : ℕ) (ts : List RefreshToken)
    → All (Spent i now) ts
    → All
        (Spent i now)
        (update_rows (is_claimed now j) (λ t. record t { revoked_at = some now }) ts)
update_rows-Spent i now j ts spent =
    All-update_rows (Spent i now) _ _ ts (λ t k. Spent-revoked i now now t) spent

-- A claim of a spent token fails, and a claim of another one keeps it spent.
claim_token-IsSpent :
    (i now : ℕ) (stored : RefreshToken) (st : Store)
    → IsSpent i now st
    → OnOk (λ st'. (counted i stored ≡ 0) × IsSpent i now st') (claim_token now stored.id st)
unfolding claim_token
claim_token-IsSpent i now stored st (spent, h) = OnOk-require _ _ _ λ one.
    elim (Bool-cases (stored.id == i)) [
      | inl e ↦
          let none_left : count_rows (is_claimed now stored.id) st.tokens ≡ 0 =
            count_rows-none (is_claimed now stored.id) st.tokens
              (All-mono st.tokens (λ t k. ground arith) spent) in
          ground arith
      | inr e ↦ returns (rw e refl, (update_rows-Spent i now stored.id st.tokens spent, h))
    ]

claim_token-spends :
    (i now : ℕ) (stored : RefreshToken) (st : Store)
    → i < st.next_id
    → OnOk
        (λ st'.
          ((counted i stored ≡ 0) × (i < st'.next_id))
          ⊎ ((counted i stored ≡ 1) × IsSpent i now st'))
        (claim_token now stored.id st)
unfolding claim_token
claim_token-spends i now stored st h = OnOk-require _ _ _ λ one.
    elim (Bool-cases (stored.id == i)) [
      | inl e ↦
          let same : stored.id ≡ i = (==_iff stored.id i).0 e in
          returns (inr (rw e refl, (rw same (claimed-Spent i now st.tokens), h)))
      | inr e ↦ returns (inl (rw e refl, h))
    ]

-- The store of a call, and the count of one that returned.
abbrev Counts : ℕ → ℕ → Store × ℕ → Type 0
Counts i now (st, n) = ((n ≡ 0) × (i < st.next_id)) ⊎ ((n ≡ 1) × IsSpent i now st)

redeemed-IsSpent :
    (i now : ℕ) (stored : RefreshToken) (st : Store) (r : Result Store)
    → OnOk (λ st'. (counted i stored ≡ 0) × IsSpent i now st') r
    → IsSpent i now st
    → ((redeemed i stored st r).1 ≡ 0) × IsSpent i now (redeemed i stored st r).0
redeemed-IsSpent i now stored st (ok st') h spent = OnOk-ok h refl
redeemed-IsSpent i now stored st (err e) h spent = (refl, spent)

redeem-IsSpent :
    (sha : Text → Text) (i now : ℕ) (stored : RefreshToken) (raw : Text) (st : Store)
    → IsSpent i now st
    → OnOk (λ st'. (counted i stored ≡ 0) × IsSpent i now st') (redeem sha now stored raw st)
unfolding redeem
redeem-IsSpent sha i now stored raw st spent =
    OnOk-bind _ _ (claim_token-IsSpent i now stored st spent)
      λ st₁ (e, spent'). returns (e, issue_tokens-IsSpent sha i now stored.user raw st₁ spent')

redeemed-Counts :
    (i now : ℕ) (stored : RefreshToken) (st : Store) (r : Result Store)
    → OnOk (λ st'. Counts i now (st', counted i stored)) r
    → i < st.next_id
    → Counts i now (redeemed i stored st r)
redeemed-Counts i now stored st (ok st') h k = OnOk-ok h refl
redeemed-Counts i now stored st (err e) h k = inl (refl, k)

issue_tokens-Counts :
    (sha : Text → Text) (i now n user : ℕ) (raw : Text) (st : Store)
    → Counts i now (st, n)
    → Counts i now (issue_tokens sha now user raw st, n)
issue_tokens-Counts sha i now n user raw st (inl (e, h)) =
    inl (e, unfold issue_tokens in omega arith)
issue_tokens-Counts sha i now n user raw st (inr (e, spent)) =
    inr (e, issue_tokens-IsSpent sha i now user raw st spent)

redeem-Counts :
    (sha : Text → Text) (i now : ℕ) (stored : RefreshToken) (raw : Text) (st : Store)
    → i < st.next_id
    → OnOk (λ st'. Counts i now (st', counted i stored)) (redeem sha now stored raw st)
unfolding redeem
redeem-Counts sha i now stored raw st h =
    OnOk-bind _ _ (claim_token-spends i now stored st h) λ st₁ counts.
      returns (issue_tokens-Counts sha i now (counted i stored) stored.user raw st₁ counts)

perform-IsSpent :
    (sha : Text → Text) (i now : ℕ) (c : Call) (st : Store)
    → IsSpent i now st
    → ((perform sha i now c st).1 ≡ 0) × IsSpent i now (perform sha i now c st).0
unfolding redeem
perform-IsSpent sha i now (redeeming stored raw) st spent =
    redeemed-IsSpent i now stored st (redeem sha now stored raw st)
      (redeem-IsSpent sha i now stored raw st spent) spent
perform-IsSpent sha i now (leaving token) st spent = (refl, logout-IsSpent sha i now token st spent)
perform-IsSpent sha i now (entering user raw) st spent =
    (refl, issue_tokens-IsSpent sha i now user raw st spent)

perform-Counts :
    (sha : Text → Text) (i now : ℕ) (c : Call) (st : Store)
    → i < st.next_id
    → Counts i now (perform sha i now c st)
unfolding redeem issue_tokens logout
perform-Counts sha i now (redeeming stored raw) st h =
    redeemed-Counts i now stored st (redeem sha now stored raw st)
      (redeem-Counts sha i now stored raw st h) h
perform-Counts sha i now (leaving token) st h = inl (refl, h)
perform-Counts sha i now (entering user raw) st h = inl (refl, omega arith)

times_redeemed-spent :
    (sha : Text → Text) (i now : ℕ) (cs : List Timed) (st : Store)
    → IsSpent i now st
    → IsOrdered now cs
    → times_redeemed sha i cs st ≡ 0
unfolding times_redeemed
times_redeemed-spent sha i now [] st spent ordered = refl
times_redeemed-spent sha i now (c ∷ cs) st (spent, h) (k, ordered) =
    let later : IsSpent i c.at_ st =
      (All-mono st.tokens (λ t. Spent-later i now c.at_ t k) spent, h) in
    let (none_now, spent') = perform-IsSpent sha i c.at_ c.call st later in
    omega (
      arith,
      none_now,
      times_redeemed-spent sha i c.at_ cs (perform sha i c.at_ c.call st).0 spent' ordered,
    )

-- Over any history of claims, logouts and logins in the order of their instants, whatever rows the claims
-- read before, a refresh token of the table is redeemed at most once.
pub times_redeemed-le :
    (sha : Text → Text) (i now : ℕ) (cs : List Timed) (st : Store)
    → i < st.next_id
    → IsOrdered now cs
    → times_redeemed sha i cs st ≤ 1
unfolding times_redeemed
times_redeemed-le sha i now [] st h ordered = omega arith
times_redeemed-le sha i now (c ∷ cs) st h (k, ordered) =
    let next = (perform sha i c.at_ c.call st).0 in
    elim (perform-Counts sha i c.at_ c.call st h) [
      | inl (e, h') ↦ omega (arith, e, times_redeemed-le sha i c.at_ cs next h' ordered)
      | inr (e, spent) ↦ omega (arith, e, times_redeemed-spent sha i c.at_ cs next spent ordered)
    ]
