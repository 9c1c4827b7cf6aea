-- ===== src/Allocation/Balanced.antt =====
-- Whatever `computeAllocationBatch` (packages/shared/src/allocation.ts) returns is balanced: no
-- assumption on the division is needed, since it checks the sum.
use serveproof.Prelude.{
  ℕ, ◌≡◌, ◌⊎◌, inl, inr, refl, Option, none, some, List, [], ◌∷◌, Text, ◌==◌, sum_by, Bool-cases,
  arith,
}
use serveproof.Prelude.Http.{Result, ok, err, OnOk, OnOk-bind, OnOk-require, returns, throws}
use serveproof.Platform.{Platform}
use serveproof.Allocation.Types.{TipInput, ShiftInput, PolicyInput, Identity, Allocation, Batch}
use serveproof.Allocation.Maps.{map_get}
use serveproof.Allocation.Pool.{pool_loop}
use serveproof.Allocation.Scores.{Scores, score_loop}
use serveproof.Allocation.Shares.{
  Share, entry_score, allocate, to_allocations, pooled, split_pool, settle,
  compute_allocation_batch,
}

abbrev pub net : Allocation → ℕ
net a = a.net_allocated

-- There are no allocations, or they add up to the pool.
abbrev pub IsBalanced : Batch → Type 0
IsBalanced b = (b.allocations ≡ []) ⊎ (sum_by net b.allocations ≡ b.pool)

allocate-net :
    (o : Option Identity) (r : Share) (rest : Result (List Allocation))
    → OnOk (λ rows. sum_by net rows ≡ sum_by pooled rows) rest
    → OnOk (λ rows. sum_by net rows ≡ sum_by pooled rows) (allocate o r rest)
unfolding allocate
allocate-net none r rest h = throws
allocate-net (some i) r (err e) h = throws
allocate-net (some i) r (ok rows) (returns h) = returns (omega (arith, h))

to_allocations-net :
    (ids : List (Text × Identity)) (raw : List Share)
    → OnOk (λ rows. sum_by net rows ≡ sum_by pooled rows) (to_allocations ids raw)
unfolding to_allocations
to_allocations-net ids [] = returns refl
to_allocations-net ids (r ∷ raw) = allocate-net (map_get r.key ids) r _ (to_allocations-net ids raw)

settle-IsBalanced : (pl : Platform) (pool : ℕ) (st : Scores) → OnOk IsBalanced (settle pl pool st)
unfolding settle
settle-IsBalanced pl pool st = elim (Bool-cases (sum_by entry_score st.score_by_key == 0)) [
  | inl e ↦ rw e (returns (inl refl))
  | inr e ↦ rw e (
      OnOk-bind _ _
        (to_allocations-net st.identity_by_key
          (split_pool pl pool (sum_by entry_score st.score_by_key) st.score_by_key))
        λ rows h. OnOk-require _ _ _ λ k. returns (inr (ground (arith, h))))
]

pub compute_allocation_batch-IsBalanced :
    (pl : Platform) (tips : List TipInput) (shifts : List ShiftInput) (policy : PolicyInput)
    → OnOk IsBalanced (compute_allocation_batch pl tips shifts policy)
unfolding compute_allocation_batch
compute_allocation_batch-IsBalanced pl tips shifts policy =
    settle-IsBalanced pl (pool_loop policy tips (0, [])).0 (
      score_loop policy shifts (record {
        score_by_key = [];
        identity_by_key = [];
        issues = (pool_loop policy tips (0, [])).1;
      }))
