-- ===== src/Batches/Review.antt =====
-- `approve`, `reject`, `autoAssignRails` and `setPlannedRail`
-- (apps/api/src/allocations/allocations.service.ts).
use serveproof.Prelude.{
  ℕ, Bool, true, false, not, ◌&&◌, ◌||◌, Option, none, some, List, [], ◌∷◌, ◌++◌, Text, text_eq,
  ◌==◌, if◌then◌else◌, is_some, length,
}
use serveproof.Prelude.Http.{
  Result, ok, not_found, bad_request, conflict, failure, require, or_throw, ◌>>=◌, ◌>>◌,
}
use serveproof.Prelude.Tables.{find_row, filter_rows, update_row}
use serveproof.Settlement.Types.{
  Rail, payroll, usdc, BatchStatus, draft, calculated, review_required, payable,
}
use serveproof.Settlement.Queries.{is_settled}
use serveproof.Batches.Types.{
  Batch, Allocation, Worker, Action, batch_approved, batch_rejected, rails_assigned, rail_changed,
  Store,
}

unfoldable pub find_batch : ℕ → Store → Option Batch
unfolding find_row
find_batch i st = find_row (λ b. b.id == i) st.batches

unfoldable pub set_batch : ℕ → (Batch → Batch) → Store → Store
unfolding update_row
set_batch i f st = record st { batches = update_row (λ b. b.id == i) f st.batches }

unfoldable pub set_allocation : ℕ → (Allocation → Allocation) → Store → Store
unfolding update_row
set_allocation i f st = record st { allocations = update_row (λ a. a.id == i) f st.allocations }

unfoldable pub audit : Action → ℕ → ℕ → ℕ → Store → Store
audit action venue user entity st = record st {
  audits =
      st.audits ++ (record { action = action; venue = venue; actor = user; entity = entity } ∷ []);
}

abbrev pub is_review : BatchStatus → Bool
is_review review_required = true
is_review _ = false

abbrev pub is_calculated : BatchStatus → Bool
is_calculated calculated = true
is_calculated _ = false

unfoldable pub approve : ℕ → ℕ → ℕ → Store → Result Store
unfolding find_batch set_batch audit
approve i user now st = do
  b ← or_throw (find_batch i st) not_found
  require (not (is_review b.status)) bad_request
  require (is_calculated b.status) conflict
  ok (
      audit batch_approved b.venue user i (
        set_batch i
          (λ r. record r { status = payable; approved_by = some user; approved_at = some now }) st))

unfoldable pub reject : ℕ → ℕ → Store → Result Store
unfolding find_batch set_batch audit
reject i user st = do
  b ← or_throw (find_batch i st) not_found
  require (is_calculated b.status || is_review b.status) conflict
  ok (audit batch_rejected b.venue user i (set_batch i (λ r. record r { status = draft }) st))

-- An allocation of a batch that has a worker and no planned rail, and is not paid.
abbrev pub needs_rail : ℕ → Allocation → Bool
needs_rail i a =
    a.batch == i
    && is_some a.identity.worker_id
    && not (is_some a.planned_rail)
    && not (is_settled a.payment)

abbrev pub worker_of : Store → Option Text → Option Worker
worker_of st none = none
worker_of st (some w) = find_row (λ x. text_eq x.id w) st.workers

abbrev pub rail_for : Option Worker → Rail
rail_for none = payroll
rail_for (some w) = if w.has_wallet then usdc else payroll

abbrev pub assign_rail : Store → Allocation → Store → Store
assign_rail read a st =
    set_allocation a.id
      (λ r. record r { planned_rail = some (rail_for (worker_of read a.identity.worker_id)) }) st

unfoldable pub assign_rails : Store → List Allocation → Store → Store
unfolding set_allocation find_row text_eq
assign_rails read [] st = st
assign_rails read (a ∷ as') st = assign_rails read as' (assign_rail read a st)

-- The counts that it answers are not modelled.
unfoldable pub auto_assign_rails : ℕ → ℕ → Store → Result Store
unfolding find_batch filter_rows assign_rails audit
auto_assign_rails i user st = do
  b ← or_throw (find_batch i st) not_found
  let assignments = filter_rows (needs_rail i) st.allocations
  ok (
      if length assignments == 0
      then st
      else audit rails_assigned b.venue user i (assign_rails st assignments st))

unfoldable pub set_planned_rail : ℕ → Rail → ℕ → Store → Result Store
unfolding find_row find_batch set_allocation audit
set_planned_rail i rail user st = do
  a ← or_throw (find_row (λ a. a.id == i) st.allocations) not_found
  b ← or_throw (find_batch a.batch st) failure
  require (not (is_settled a.payment)) conflict
  ok (
      audit rail_changed b.venue user i
        (set_allocation i (λ r. record r { planned_rail = some rail }) st))
