-- ===== src/Settlement/Queries.antt =====
-- Status tests, queries and the writes that several methods of apps/api/src/payouts/payouts.service.ts
-- and apps/worker/src/solana-settlement.service.ts share.
use serveproof.Prelude.{
  ℕ, Bool, true, false, ◌&&◌, Option, some, List, [], ◌∷◌, ◌++◌, ◌==◌, if◌then◌else◌, is_some,
}
use serveproof.Prelude.Tables.{find_row, update_row, update_rows, count_rows}
use serveproof.Settlement.Types.{
  Rail, usdc, BatchStatus, payable, partially_paid, paid, PaymentStatus, pending, settled,
  PayoutStatus, created, initiated, submitted, confirmed, finalized, failed, Wallet, Worker, Venue,
  Batch, Allocation, Payout, Store,
}

-- PAYABLE or PARTIALLY_PAID.
abbrev pub is_payable : BatchStatus → Bool
is_payable payable = true
is_payable partially_paid = true
is_payable _ = false

-- The statuses that the payment rollup may replace.
abbrev pub is_rolled_up : BatchStatus → Bool
is_rolled_up payable = true
is_rolled_up partially_paid = true
is_rolled_up paid = true
is_rolled_up _ = false

abbrev pub is_settled : PaymentStatus → Bool
is_settled settled = true
is_settled _ = false

abbrev pub is_pending : PaymentStatus → Bool
is_pending pending = true
is_pending _ = false

abbrev pub is_usdc : Option Rail → Bool
is_usdc (some usdc) = true
is_usdc _ = false

abbrev pub is_failed : PayoutStatus → Bool
is_failed failed = true
is_failed _ = false

abbrev pub is_initiated : PayoutStatus → Bool
is_initiated initiated = true
is_initiated _ = false

abbrev pub is_submitted : PayoutStatus → Bool
is_submitted submitted = true
is_submitted _ = false

abbrev pub is_finalized : PayoutStatus → Bool
is_finalized finalized = true
is_finalized _ = false

-- CREATED, INITIATED or FAILED.
abbrev pub is_buildable : PayoutStatus → Bool
is_buildable created = true
is_buildable initiated = true
is_buildable failed = true
is_buildable _ = false

-- SUBMITTED, CONFIRMED or FINALIZED.
abbrev pub is_sent : PayoutStatus → Bool
is_sent submitted = true
is_sent confirmed = true
is_sent finalized = true
is_sent _ = false

-- SUBMITTED or CONFIRMED.
abbrev pub is_tracked : PayoutStatus → Bool
is_tracked submitted = true
is_tracked confirmed = true
is_tracked _ = false

-- INITIATED, SUBMITTED or CONFIRMED.
abbrev pub is_stale : PayoutStatus → Bool
is_stale initiated = true
is_stale submitted = true
is_stale confirmed = true
is_stale _ = false

unfoldable pub find_payout : ℕ → Store → Option Payout
unfolding find_row
find_payout i st = find_row (λ p. p.id == i) st.payouts

unfoldable pub find_payment : ℕ → Store → Option Payout
unfolding find_row
find_payment i st = find_row (λ p. p.payment_id == i) st.payouts

unfoldable pub find_allocation : ℕ → Store → Option Allocation
unfolding find_row
find_allocation i st = find_row (λ a. a.id == i) st.allocations

unfoldable pub find_batch : ℕ → Store → Option Batch
unfolding find_row
find_batch i st = find_row (λ b. b.id == i) st.batches

unfoldable pub find_worker : ℕ → Store → Option Worker
unfolding find_row
find_worker i st = find_row (λ w. w.id == i) st.workers

unfoldable pub find_wallet : ℕ → Store → Option Wallet
unfolding find_row
find_wallet i st = find_row (λ w. w.id == i) st.wallets

unfoldable pub find_venue : ℕ → Store → Option Venue
unfolding find_row
find_venue i st = find_row (λ v. v.id == i) st.venues

unfoldable pub set_payout : ℕ → (Payout → Payout) → Store → Store
unfolding update_row
set_payout i f st = record st { payouts = update_row (λ p. p.id == i) f st.payouts }

-- `updateMany` of a payout that still has one of some statuses.
unfoldable pub claim_payout : ℕ → (PayoutStatus → Bool) → (Payout → Payout) → Store → Store
unfolding update_rows
claim_payout i allowed f st = record st {
  payouts = update_rows (λ p. p.id == i && allowed p.status) f st.payouts;
}

-- `claimed.count > 0`.
unfoldable pub can_claim : ℕ → (PayoutStatus → Bool) → Store → Bool
unfolding find_row
can_claim i allowed st = is_some (find_row (λ p. p.id == i && allowed p.status) st.payouts)

unfoldable pub set_allocation : ℕ → (Allocation → Allocation) → Store → Store
unfolding update_row
set_allocation i f st = record st { allocations = update_row (λ a. a.id == i) f st.allocations }

unfoldable pub rebuild_income : ℕ → Store → Store
rebuild_income venue st = record st { projections = st.projections ++ (venue ∷ []) }

-- The status that the payments of a batch roll up to.
unfoldable pub rollup : ℕ → ℕ → BatchStatus
rollup paid_count all_count =
    if paid_count == 0 then payable else if paid_count == all_count then paid else partially_paid

unfoldable pub payments_of : ℕ → List Allocation → ℕ × ℕ
unfolding count_rows
payments_of batch as' = (
  count_rows (λ a. a.batch == batch && is_settled a.payment) as',
  count_rows (λ a. a.batch == batch) as',
)

unfoldable pub refresh_batch : ℕ → Store → Store
unfolding rollup payments_of update_rows
refresh_batch batch st =
    let (settled_count, all_count) = payments_of batch st.allocations in
    record st {
      batches =
          update_rows (λ b. b.id == batch && is_rolled_up b.status)
            (λ b. record b { status = rollup settled_count all_count }) st.batches;
    }
