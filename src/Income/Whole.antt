-- ===== src/Income/Whole.antt =====
-- The slices of `splitProportionally` (packages/db/src/income-projector.ts) add up to the amount.
use native.Mathlib.Nat.{div-add-mod}
use serveproof.Prelude.{
  ℕ, ◌%◌, inl, inr, zero, suc, ◌+◌, ◌-◌, ◌*◌, ◌^◌, ◌<◌, ◌≤◌, ◌≡◌, refl, List, [], ◌∷◌, map, ltb,
  length, sum, get_or, Bool-cases, arith,
}
use serveproof.Platform.{Platform, IsExact}
use serveproof.Allocation.Floors.{le_cancel}
use serveproof.Income.Split.{
  effective, effective_sum, floors, order, add_cent, hand_out, split_proportionally,
}

sum-add_cent : (i : ℕ) (slices : List ℕ) → sum (add_cent i slices) ≡ sum slices + 1
unfolding add_cent
sum-add_cent zero [] = refl
sum-add_cent (suc i) [] = omega (arith, sum-add_cent i [])
sum-add_cent zero (s ∷ slices) = omega arith
sum-add_cent (suc i) (s ∷ slices) = omega (arith, sum-add_cent i slices)

sum-hand_out :
    (n cursor : ℕ) (indices slices : List ℕ)
    → sum (hand_out n cursor indices slices) ≡ sum slices + n
unfolding hand_out
sum-hand_out zero cursor indices slices = omega arith
sum-hand_out (suc n) cursor indices slices = omega (
  arith,
  sum-hand_out n ((cursor + 1) % length indices) indices
      (add_cent (get_or indices cursor 0) slices),
  sum-add_cent (get_or indices cursor 0) slices,
)

module _ (pl : Platform) (exact : IsExact pl) (cents total : ℕ) (positive : 0 < total)
    (small : cents * total + total < 2 ^ 53) where
  floor_le : (w : ℕ) → w ≤ total → total * pl.floor_div (cents * w) total ≤ cents * w
  floor_le w h =
      rw (exact (cents * w) total positive (grind arith))
        (grind (arith, div-add-mod (cents * w) total))

  sum-floors :
      (weights : List ℕ)
      → sum weights ≤ total
      → total * sum (floors pl cents total weights) ≤ cents * sum weights
  sum-floors [] h = omega arith
  sum-floors (w ∷ weights) h =
      let rest = sum-floors weights (omega arith) in
      let first = floor_le w (omega arith) in omega arith

sum-ones : (ws : List ℕ) → sum (map (λ w. 1) ws) ≡ length ws
sum-ones [] = refl
sum-ones (w ∷ ws) = omega (arith, sum-ones ws)

effective_sums : (ws : List ℕ) → sum (effective ws) ≡ effective_sum ws
effective_sums ws = elim (Bool-cases (ltb 0 (sum ws))) [
  | inl e ↦ rw e refl
  | inr e ↦ rw e (sum-ones ws)
]

effective_positive : (w : ℕ) (ws : List ℕ) → 0 < effective_sum (w ∷ ws)
effective_positive w ws = ground arith

-- While the amount times the sum of the weights is exact in a double, the slices of an amount over at
-- least one shift add up to it, also if all weights are 0.
pub sum-split_proportionally :
    (pl : Platform) (cents w : ℕ) (weights : List ℕ)
    → IsExact pl
    → cents * effective_sum (w ∷ weights) + effective_sum (w ∷ weights) < 2 ^ 53
    → sum (split_proportionally pl cents (w ∷ weights)) ≡ cents
unfolding split_proportionally
sum-split_proportionally pl cents w weights exact small =
    let total = effective_sum (w ∷ weights) in
    let used = effective (w ∷ weights) in
    let slices = floors pl cents total used in
    let whole : sum used ≡ total = effective_sums (w ∷ weights) in
    let positive : 0 < total = effective_positive w weights in
    let low : total * sum slices ≤ cents * sum used =
      sum-floors pl exact cents total positive small used (omega (arith, whole)) in
    let below : sum slices ≤ cents =
      le_cancel (sum slices) cents total positive (omega (arith, (rw whole at low))) in
    omega (arith, below, sum-hand_out (cents - sum slices) 0 (order pl cents total used) slices)
