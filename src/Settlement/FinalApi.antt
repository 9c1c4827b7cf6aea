-- ===== src/Settlement/FinalApi.antt =====
-- What the methods of apps/api/src/payouts/payouts.service.ts do to FINALIZED payouts.
use serveproof.Prelude.{
  ℕ, ◌≡◌, inl, inr, refl, ap, sym, ◌∙◌, ==_iff, true, not, ◌||◌, Option, none, some, ◌==◌,
  Bool-cases, arith,
}
use serveproof.Prelude.Http.{OnOk, OnOk-bind, OnOk-or_throw, OnOk-require, returns}
use serveproof.Prelude.Tables.{find_row-true}
use serveproof.Settlement.Types.{
  PaymentStatus, settled, Batch, Allocation, Payout, Store, Chain, Library,
}
use serveproof.Settlement.Queries.{
  is_usdc, is_failed, is_initiated, find_payout, find_allocation, find_payment, can_claim,
  set_allocation, rebuild_income, refresh_batch,
}
use serveproof.Settlement.Create.{
  Found, renew_found, create_or_heal, heal, healed_status, same_payment, refresh_paid, mark_pending,
  check_create, write_create, create_usdc_payout,
}
use serveproof.Settlement.Send.{expire, claim_expired, lost_claim}
use serveproof.Settlement.Finality.{
  final_at, final_in-append, claim_payout-final, IsFinalAt, IsOpenAt, set_payout-final,
}

refresh_paid-final :
    (i : ℕ) (t : PaymentStatus) (a : Allocation) (b : Batch) (st : Store)
    → IsFinalAt i st
    → IsFinalAt i (refresh_paid t a b st)
unfolding rebuild_income refresh_batch
refresh_paid-final i settled a b st e = e
refresh_paid-final i _ a b st e = e

heal-final :
    (i : ℕ) (t : Option PaymentStatus) (a : Allocation) (b : Batch) (st : Store)
    → IsFinalAt i st
    → IsFinalAt i (heal t a b st)
heal-final i none a b st e = e
heal-final i (some t) a b st e =
    elim (Bool-cases (not (same_payment t a.payment) || not (is_usdc a.payout_rail))) [
      | inl k ↦ rw k (refresh_paid-final i t a b _ (unfold set_allocation in e))
      | inr k ↦ rw k e
    ]

mark_pending-final :
    (i : ℕ) (a : Allocation) (st : Store) → IsFinalAt i st → IsFinalAt i (mark_pending a st)
unfolding set_allocation
mark_pending-final i a st e = e

create_or_heal-final :
    (i : ℕ) (user : Option ℕ) (f : Found) (o : Option Payout) (st : Store)
    → ((p : Payout) → o ≡ some p → is_failed p.status ≡ true → IsOpenAt p.id st)
    → IsFinalAt i st
    → OnOk (IsFinalAt i) (create_or_heal user f o st)
create_or_heal-final i user f none st h e =
    OnOk-require _ _ _
      λ _. returns (mark_pending-final i f.allocation _ (final_in-append i st.payouts _ e))
create_or_heal-final i user f (some p) st h e = elim (Bool-cases (is_failed p.status)) [
  | inr k ↦ rw k (returns (heal-final i (healed_status p.status) f.allocation f.batch st e))
  | inl k ↦
      let (x, found, unsettled) = h p refl k in
      rw k (
        returns (
          mark_pending-final i f.allocation _
            (set_payout-final i p.id (renew_found user f) st (λ x. refl) found unsettled e)))
]

check_create-existing :
    (lib : Library) (chain : Chain) (aid : ℕ) (st : Store)
    → OnOk (λ f. f.existing ≡ find_payment aid st) (check_create lib chain aid st)
unfolding check_create find_allocation
check_create-existing lib chain aid st = OnOk-or_throw _ _ _ λ a found. OnOk-or_throw _ _ _ λ b _.
    OnOk-or_throw _ _ _ λ w _. OnOk-require _ _ _ λ _. OnOk-require _ _ _ λ _.
      OnOk-require _ _ _ λ _. OnOk-or_throw _ _ _ λ wallet _. OnOk-require _ _ _ λ _.
        OnOk-require _ _ _ λ _. returns (
          ap (λ j. find_payment j st)
            ((==_iff a.id aid).0 (find_row-true (λ a. a.id == aid) st.allocations found)))

-- A createUsdcPayout that returns leaves every FINALIZED payout FINALIZED, whatever other calls have
-- written between its reads and its write, if the row of a payout that it read as FAILED is there and not
-- FINALIZED when it writes.
pub create_usdc_payout-final :
    (i : ℕ) (lib : Library) (chain : Chain) (aid : ℕ) (user : Option ℕ) (read st : Store)
    → ((p : Payout) → find_payment aid read ≡ some p → is_failed p.status ≡ true → IsOpenAt p.id st)
    → final_at i st ≡ true
    → OnOk (λ st'. final_at i st' ≡ true) (create_usdc_payout lib chain aid user read st)
unfolding create_usdc_payout write_create
create_usdc_payout-final i lib chain aid user read st h e =
    OnOk-bind _ _ (check_create-existing lib chain aid read)
      λ f same. create_or_heal-final i user f f.existing st (λ p k. h p (sym same ∙ k)) e

lost_claim-final :
    (i : ℕ) (o : Option Payout) (st : Store) → IsFinalAt i st → IsFinalAt i (lost_claim o st).store
lost_claim-final i none st e = e
lost_claim-final i (some p) st e = ground arith

-- The expiry in `submitSigned` leaves every FINALIZED payout FINALIZED, on whatever row was read before.
claim_expired-final :
    (i : ℕ) (p : Payout) (st : Store)
    → final_at i st ≡ true
    → final_at i (claim_expired p st).store ≡ true
unfolding claim_expired set_allocation
claim_expired-final i p st e = elim (Bool-cases (can_claim p.id is_initiated st)) [
  | inl k ↦ rw k (claim_payout-final i p.id is_initiated expire st (λ x. refl) refl e)
  | inr k ↦ rw k (lost_claim-final i (find_payout p.id st) st e)
]
