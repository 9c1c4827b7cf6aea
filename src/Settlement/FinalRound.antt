-- ===== src/Settlement/FinalRound.antt =====
-- What a round of `reconcileStalePayouts` and an event of the indexer do to FINALIZED payouts
-- (apps/worker/src/solana-settlement.service.ts).
use serveproof.Settlement.Finality.{set_payout-final}
use serveproof.Settlement.Types.{confirmed}
use serveproof.Settlement.Queries.{is_submitted, is_initiated, find_payment}
use serveproof.Settlement.Reconcile.{confirm_event, index_settled}
use serveproof.Prelude.{◌||◌, refl}
use serveproof.Prelude.{ℕ, ◌≡◌, inl, inr, true, Option, none, some, Bool-cases}
use serveproof.Settlement.Types.{Payout, Store}
use serveproof.Settlement.Finality.{final_at}
use serveproof.Shared.Blockhash.{is_blockhash_expired}
use serveproof.Shared.Blockhash
use serveproof.Settlement.Finality.{IsFinalAt, IsOpenAt}

confirm_event-final :
    (i : ℕ) (o : Option Payout) (st : Store)
    → ((p : Payout)
        → o ≡ some p
        → (is_submitted p.status || is_initiated p.status) ≡ true
        → IsOpenAt p.id st)
    → IsFinalAt i st
    → IsFinalAt i (confirm_event o st)
confirm_event-final i none st h e = e
confirm_event-final i (some p) st h e =
    elim (Bool-cases (is_submitted p.status || is_initiated p.status)) [
      | inr k ↦ rw k e
      | inl k ↦
          let (x, found, unsettled) = h p refl k in
          rw k (
            set_payout-final i p.id (λ q. record q { status = confirmed }) st (λ x. refl) found
              unsettled e)
    ]

-- An event of the indexer leaves every FINALIZED payout FINALIZED, whatever other calls have written
-- between its read and its write, if the row of a payout that it read as INITIATED or SUBMITTED is there
-- and not FINALIZED when it writes.
pub index_settled-final :
    (i payment_id : ℕ) (read st : Store)
    → ((p : Payout)
        → find_payment payment_id read ≡ some p
        → (is_submitted p.status || is_initiated p.status) ≡ true
        → IsOpenAt p.id st)
    → final_at i st ≡ true
    → final_at i (index_settled payment_id read st) ≡ true
unfolding index_settled
index_settled-final i payment_id read st h e =
    confirm_event-final i (find_payment payment_id read) st h e
