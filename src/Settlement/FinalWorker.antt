-- ===== src/Settlement/FinalWorker.antt =====
-- The writes of a confirmation job (apps/worker/src/solana-settlement.service.ts) and FINALIZED payouts.
use serveproof.Prelude.{
  ℕ, ◌≡◌, inl, inr, refl, Bool, true, false, Option, none, some, Text, leb, ◌==◌, is_some,
  Bool-cases, Option-cases,
}
use serveproof.Prelude.Tables.{find_row-true, find_row-update_row}
use serveproof.Settlement.Types.{settled, confirmed, failed, Payout, Store, SettlementRecord, Chain}
use serveproof.Settlement.Queries.{
  is_submitted, is_finalized, is_tracked, find_payout, find_allocation, set_payout, set_allocation,
  rebuild_income, refresh_batch,
}
use serveproof.Settlement.Finality.{IsFinalAt, IsOpenAt, claim_payout-final, set_payout-final}
use serveproof.Settlement.Finality.{final_in-update_row}
use serveproof.Settlement.Worker.{
  mark_failed, settle_or_fail, finalize_row, settle_row, finalize_from_chain, finalize_found,
  refresh_batch_of, confirm_submitted, rebroadcast_parts, fail_if_fork_dropped, or_await,
}

pub mark_failed-final :
    (i j aid : ℕ) (why : Text) (st : Store)
    → IsOpenAt j st
    → IsFinalAt i st
    → IsFinalAt i (mark_failed j aid why st)
unfolding mark_failed set_allocation
mark_failed-final i j aid why st (x, f, n) e =
    set_payout-final i j (λ p. record p { status = failed; failed_reason = some why }) st
      (λ p. refl) f n e

refresh_batch_of-payouts : (aid : ℕ) (st : Store) → (refresh_batch_of aid st).payouts ≡ st.payouts
unfolding refresh_batch
refresh_batch_of-payouts aid st = elim (Option-cases (find_allocation aid st)) [
  | inl k ↦ rw (refresh_batch_of, k) refl
  | inr (a, k) ↦ rw (refresh_batch_of, k) refl
]

settle_row-final :
    (i aid : ℕ) (chain : Chain) (slot : Option ℕ) (p : Payout) (r : SettlementRecord) (st : Store)
    → IsFinalAt i st
    → IsFinalAt i (settle_row chain slot p aid r st)
unfolding settle_row rebuild_income
settle_row-final i aid chain slot p r st e =
    rw
      (refresh_batch_of-payouts aid (
        set_allocation aid (λ a. record a { payment = settled })
          (set_payout p.id (finalize_row chain slot r) st)))
      (unfold set_allocation set_payout in
        final_in-update_row i (λ x. x.id == p.id) (finalize_row chain slot r) st.payouts
          (λ x. (refl, λ _. refl)) e)

finalize_found-final :
    (i aid : ℕ) (chain : Chain) (slot : Option ℕ) (o : Option Payout) (st : Store)
    → IsFinalAt i st
    → IsFinalAt i (finalize_found chain slot aid o st).store
unfolding rebuild_income
finalize_found-final i aid chain slot none st e = e
finalize_found-final i aid chain slot (some p) st e = elim (Bool-cases (is_finalized p.status)) [
  | inl k ↦ rw k e
  | inr k ↦ elim (Option-cases (chain.final_settlement p.payment_id)) [
    | inl n ↦ rw (k, n) e
    | inr (r, n) ↦ rw (k, n) (settle_row-final i aid chain slot p r st e)
  ]
]

pub finalize_from_chain-final :
    (i j aid : ℕ) (chain : Chain) (slot : Option ℕ) (st : Store)
    → IsFinalAt i st
    → IsFinalAt i (finalize_from_chain chain slot j aid st).store
unfolding finalize_from_chain
finalize_from_chain-final i j aid chain slot st e =
    finalize_found-final i aid chain slot (find_payout j st) st e

pub rebroadcast-final :
    (i : ℕ) (p : Payout) (s t : Option Text) (st : Store)
    → IsFinalAt i st
    → IsFinalAt i (rebroadcast_parts p s t st)
rebroadcast-final i p (some s) (some t) st e =
    claim_payout-final i p.id is_tracked _ st (λ x. refl) refl e
rebroadcast-final i p (some s) none st e = e
rebroadcast-final i p none t st e = e

pub settle_or_fail-final :
    (i : ℕ) (chain : Chain) (p : Payout) (why : Text) (st : Store)
    → IsOpenAt p.id st
    → IsFinalAt i st
    → IsFinalAt i (settle_or_fail chain p why st).store
settle_or_fail-final i chain p why st o e =
    elim (Bool-cases (is_some (chain.final_settlement p.payment_id))) [
      | inl k ↦ rw k (finalize_from_chain-final i p.id p.allocation chain none st e)
      | inr k ↦ rw k (mark_failed-final i p.id p.allocation why st o e)
    ]

pub fork_dropped-final :
    (i slot : ℕ) (chain : Chain) (p : Payout) (signature : Text) (expired : Bool) (st : Store)
    → IsOpenAt p.id st
    → IsFinalAt i st
    → IsFinalAt i (or_await (fail_if_fork_dropped chain p signature slot expired st) st).store
unfolding fail_if_fork_dropped
fork_dropped-final i slot chain p signature false st o e = e
fork_dropped-final i slot chain p signature true st o e =
    elim (Bool-cases (leb chain.final_slot slot)) [
      | inl k ↦ rw k e
      | inr k ↦ elim (Bool-cases (chain.final_transaction signature)) [
        | inl l ↦ rw (k, l) e
        | inr l ↦ elim (Bool-cases (is_some (chain.final_settlement p.payment_id))) [
          | inl m ↦ rw (k, l, m) (finalize_from_chain-final i p.id p.allocation chain none st e)
          | inr m ↦ rw (k, l, m) (mark_failed-final i p.id p.allocation _ st o e)
        ]
      ]
    ]

pub confirm_submitted-final :
    (i : ℕ) (p : Payout) (st : Store)
    → IsOpenAt p.id st
    → IsFinalAt i st
    → IsOpenAt p.id (confirm_submitted p st) × IsFinalAt i (confirm_submitted p st)
confirm_submitted-final i p st (x, f, n) e = elim (Bool-cases (is_submitted p.status)) [
  | inr k ↦ rw k ((x, f, n), e)
  | inl k ↦ rw k (
    (
      record x { status = confirmed },
      unfold find_payout set_payout in
          find_row-update_row (λ r. r.id == p.id) (λ q. record q { status = confirmed }) st.payouts
            f (find_row-true (λ r. r.id == p.id) st.payouts f),
      refl,
    ),
    set_payout-final i p.id _ st (λ r. refl) f n e,
  )
]
