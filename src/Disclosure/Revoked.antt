-- ===== src/Disclosure/Revoked.antt =====
-- After `revokeGrant` nothing of a grant is shown (apps/api/src/disclosure/disclosure.service.ts).
use serveproof.Prelude.{
  ℕ, ◌≡◌, inl, inr, refl, ap, ◌∙◌, Bool, Option, some, List, [], ◌∷◌, Text, text_eq, ◌==◌,
  Bool-cases,
}
use mathlib.Core.Option.{some-injective}
use serveproof.Prelude.Http.{ok, OnOk, OnOk-or_throw, OnOk-require, returns, methods}
use serveproof.Prelude.Tables.{find_row, update_row, find_row-true}
use serveproof.Redis.{Redis}
use serveproof.Disclosure.Types.{Grant, Store, Runtime}
use serveproof.Disclosure.Grants.{find_grant, revoke_grant, revoke_all}
use serveproof.Disclosure.Access.{revoked_status, report_status, newest, grant_by_token}
use serveproof.Disclosure.Otp.{Key}
use serveproof.Disclosure.Verify.{metadata, verify_by_token}

-- Where two searches find the same row, an update of the row that one finds changes what the other does.
find_row-update_row_both {ℓ} :
    {A : Type ℓ} (p q : A → Bool) (f : A → A) (xs : List A) {x : A}
    → ((y : A) → q (f y) ≡ q y)
    → find_row p xs ≡ some x
    → find_row q xs ≡ some x
    → find_row q (update_row p f xs) ≡ some (f x)
unfolding find_row update_row
find_row-update_row_both p q f [] h e k = cc
find_row-update_row_both p q f (y ∷ xs) {x} h e k = elim (Bool-cases (p y)) [
  | inl a ↦
      let same = some-injective y x (rw a at e) in
      rw (a, h y ∙ ap q same ∙ find_row-true q (y ∷ xs) k) (ap (λ z. some (f z)) same)
  | inr a ↦ elim (Bool-cases (q y)) [
    | inl b ↦
        let same = some-injective y x (rw b at k) in cc (a, ap p same, find_row-true p (y ∷ xs) e)
    | inr b ↦ rw (a, b) (find_row-update_row_both p q f xs h (rw a at e) (rw b at k))
  ]
]

abbrev revoked_grant : ℕ → Grant → Grant
revoked_grant now g = record g { revoked_at = some now }

revoke_all-grant_by_token :
    (rt : Runtime) (now i : ℕ) (token : Text) (st : Store) {g : Grant}
    → find_grant i st ≡ some g
    → grant_by_token rt token st ≡ some g
    → grant_by_token rt token (revoke_all now i st) ≡ some (revoked_grant now g)
unfolding revoke_all grant_by_token find_grant
revoke_all-grant_by_token rt now i token st e k =
    find_row-update_row_both (λ g. g.id == i) (λ g. text_eq g.token_hash (rt.sha token))
      (revoked_grant now) st.grants (λ y. refl) e k

verify_by_token-revoked :
    (r : Redis Key) (rt : Runtime) (later : ℕ) (token : Text) (access : Option Text) (st : Store)
    (s : r.State) (now : ℕ) (g : Grant)
    → grant_by_token rt token st ≡ some (revoked_grant now g)
    → verify_by_token r rt later token access st s
      ≡ ok (st, metadata revoked_status (revoked_grant now g) (newest (revoked_grant now g) st))
unfolding verify_by_token report_status methods
verify_by_token-revoked r rt later token access st s now g e = rw e refl

-- After a revocation that returned, a verification by the token of the grant answers REVOKED and no
-- report, whoever asks, with whatever session and at any time.
pub revoke_grant-revoked :
    (r : Redis Key) (rt : Runtime) (now later user i : ℕ) (token : Text) (access : Option Text)
    (st : Store) (s : r.State) {g : Grant}
    → find_grant i st ≡ some g
    → grant_by_token rt token st ≡ some g
    → OnOk
        (λ st'.
          let g' : Grant = record g { revoked_at = some now } in
          verify_by_token r rt later token access st' s
          ≡ ok (st', metadata revoked_status g' (newest g' st')))
        (revoke_grant now user i st)
unfolding revoke_grant
revoke_grant-revoked r rt now later user i token access st s {g} e k = OnOk-or_throw _ _ _ λ w _.
    OnOk-or_throw _ _ _ λ g₀ _. OnOk-require _ _ _ λ _. returns (
      verify_by_token-revoked r rt later token access (revoke_all now i st) s now g
        (revoke_all-grant_by_token rt now i token st e k))
