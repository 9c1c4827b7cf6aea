-- ===== src/Allocation/Pool.antt =====
-- The pool: the loop over the tips of `computeAllocationBatch` (packages/shared/src/allocation.ts).
use serveproof.Prelude.{
  ℕ, ◌+◌, Bool, true, false, not, Option, some, List, [], ◌∷◌, ◌++◌, if◌then◌else◌, or_else,
}
use serveproof.Allocation.Types.{
  PaymentStatus, canceled, RefundStatus, full_refund, TipInput, PolicyInput, IssueCode,
  refunded_payment_excluded, canceled_payment_excluded, tip_detail, Issue,
}

abbrev pub is_full : Option RefundStatus → Bool
is_full (some full_refund) = true
is_full _ = false

abbrev pub is_canceled : Option PaymentStatus → Bool
is_canceled (some canceled) = true
is_canceled _ = false

abbrev tip_issue : IssueCode → TipInput → Issue
tip_issue c tip = record { code = c; blocking = false; detail = tip_detail tip.tip_type tip.gross }

-- One round of the loop over the tips.
unfoldable pub pool_step : PolicyInput → TipInput → ℕ × List Issue → ℕ × List Issue
pool_step policy tip (cents, issues) =
    if not (or_else (policy.pool_inclusion tip.tip_type) false)
    then (cents, issues)
    else if is_full tip.refund_status
    then (cents, issues ++ (tip_issue refunded_payment_excluded tip ∷ []))
    else if is_canceled tip.payment_status
    then (cents, issues ++ (tip_issue canceled_payment_excluded tip ∷ []))
    else (cents + tip.gross, issues)

unfoldable pub pool_loop : PolicyInput → List TipInput → ℕ × List Issue → ℕ × List Issue
pool_loop policy [] st = st
pool_loop policy (tip ∷ tips) st = pool_loop policy tips (pool_step policy tip st)
