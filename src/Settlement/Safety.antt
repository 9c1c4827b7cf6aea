-- ===== src/Settlement/Safety.antt =====
-- What `buildTransaction` and `submitSigned` (apps/api/src/payouts/payouts.service.ts) promise against a
-- second payment.
use serveproof.Prelude.{
  ℕ, ◌<◌, ◌≡◌, ◌⊎◌, inl, inr, refl, ap, true, false, Option, none, some, [], ◌∷◌, ◌++◌, Text,
  Bool-cases, arith,
}
use serveproof.Prelude.Http.{
  Result, ok, err, OnOk, OnOk-bind, OnOk-or_throw, OnOk-require, returns, throws,
}
use serveproof.Settlement.Types.{created, Payout, Store, Chain, Library}
use serveproof.Settlement.Queries.{
  is_initiated, is_buildable, is_sent, find_payout, claim_payout, can_claim, set_allocation,
}
use serveproof.Settlement.Send.{
  expired_at, claim_expired, note_send_error, lost_claim, claim_submit, submit_signed,
}

-- `p` may be built: no settlement is on the chain, and no transaction built for it can still land: none
-- was built since it was created, or the last valid block of the last one has passed.
abbrev pub CanBuild : Chain → Payout → Type 0
CanBuild chain p =
    (is_buildable p.status ≡ true)
    × (chain.settlement p.payment_id ≡ none)
    × ((p.status ≡ created)
        ⊎ (p.last_valid_height ≡ none)
        ⊎ ((h : ℕ) × (p.last_valid_height ≡ some h) × (h < chain.block_height)))

anything {ℓ} : {A : Type ℓ} (r : Result A) → OnOk (λ _. Unit {0}) r
anything (ok a) = returns tt
anything (err e) = throws

-- What a submission sent and queued: nothing, or one transaction, if its payout is INITIATED and its
-- blockhash is not known to have expired.
abbrev pub Broadcasts : Chain → ℕ → Store → Store → Type 0
Broadcasts chain i st st' =
    ((st'.sent ≡ st.sent) × (st'.jobs ≡ st.jobs))
    ⊎ ((p : Payout) × (raw : Text) × (signature : Text) × (find_payout i st ≡ some p)
        × (is_initiated p.status ≡ true)
        × (expired_at chain p.last_valid_height ≡ false)
        × (st'.sent ≡ st.sent ++ (raw ∷ []))
        × (st'.jobs ≡ st.jobs ++ (record { payout = p.id; signature = signature } ∷ [])))

lost_claim-same : (o : Option Payout) (st : Store) → (lost_claim o st).store ≡ st
lost_claim-same none st = refl
lost_claim-same (some p) st = ground arith

claim_expired-silent :
    (chain : Chain) (i : ℕ) (p : Payout) (st : Store)
    → Broadcasts chain i st (claim_expired p st).store
unfolding claim_expired
claim_expired-silent chain i p st = elim (Bool-cases (can_claim p.id is_initiated st)) [
  | inl k ↦ rw k (inl (unfold set_allocation claim_payout in (refl, refl)))
  | inr k ↦ rw (k, lost_claim-same (find_payout p.id st) st) (inl (refl, refl))
]

note_send_error-silent :
    (o : Option Text) (j : ℕ) (st : Store)
    → ((note_send_error o j st).sent ≡ st.sent) × ((note_send_error o j st).jobs ≡ st.jobs)
unfolding claim_payout
note_send_error-silent none j st = (refl, refl)
note_send_error-silent (some m) j st = (refl, refl)

claim_submit-Broadcasts :
    (chain : Chain) (now i : ℕ) (user : Option ℕ) (p : Payout) (signature raw : Text) (st : Store)
    → find_payout i st ≡ some p
    → is_initiated p.status ≡ true
    → expired_at chain p.last_valid_height ≡ false
    → Broadcasts chain i st (claim_submit chain now user p signature raw st).store
unfolding claim_submit claim_payout
claim_submit-Broadcasts chain now i user p signature raw st f a b =
    elim (Bool-cases (can_claim p.id is_initiated st)) [
      | inl k ↦ rw k (
          inr (
            p,
            raw,
            signature,
            f,
            a,
            b,
            (note_send_error-silent chain.send_error p.id _).0,
            ap (λ js. js ++ (record { payout = p.id; signature = signature } ∷ []))
                (note_send_error-silent chain.send_error p.id _).1,
          ))
      | inr k ↦ rw (k, lost_claim-same (find_payout p.id st) st) (inl (refl, refl))
    ]

-- A submission that returns hands at most one transaction to the RPC node, with its confirmation job,
-- and only for an INITIATED payout whose blockhash is not known to have expired.
pub submit_signed-Broadcasts :
    (lib : Library) (chain : Chain) (now i : ℕ) (signed : Text) (user : Option ℕ) (st : Store)
    → OnOk (λ o. Broadcasts chain i st o.store) (submit_signed lib chain now i signed user st)
unfolding submit_signed
submit_signed-Broadcasts lib chain now i signed user st = OnOk-or_throw _ _ _ λ p f.
    elim (Bool-cases (is_sent p.status)) [
      | inl k ↦ rw k (returns (inl (refl, refl)))
      | inr k ↦ rw k (
          OnOk-require _ _ _ λ a. OnOk-bind {Q = λ _. Unit {0}} _ _ (anything _) λ x _.
            elim (Bool-cases (expired_at chain p.last_valid_height)) [
              | inl b ↦ rw b (returns (claim_expired-silent chain i p st))
              | inr b ↦ rw b (returns (claim_submit-Broadcasts chain now i user p x.0 x.1 st f a b))
            ])
    ]
