-- ===== src/Income/Split.antt =====
-- `splitProportionally` and `computeGrade` (packages/db/src/income-projector.ts), for amounts that are
-- not negative.
use serveproof.Prelude.{
  ℕ, zero, suc, ◌+◌, ◌-◌, ◌*◌, ◌%◌, Bool, true, false, ◌&&◌, ◌||◌, List, [], ◌∷◌, map,
  if◌then◌else◌, ltb, length, sum, get_or,
}
use serveproof.Prelude.Sort.{sort_by}
use serveproof.Platform.{Platform}

-- `weights`, or 1 for each where they add up to 0.
abbrev pub effective : List ℕ → List ℕ
effective weights = if ltb 0 (sum weights) then weights else map (λ w. 1) weights

abbrev pub effective_sum : List ℕ → ℕ
effective_sum weights = if ltb 0 (sum weights) then sum weights else length weights

-- The floors of `raw`.
abbrev pub floors : Platform → ℕ → ℕ → List ℕ → List ℕ
floors pl cents total weights = map (λ w. pl.floor_div (cents * w) total) weights

-- An index, and the product whose quotient by `effectiveSum` has its fraction.
abbrev pub indexed : ℕ → ℕ → List ℕ → List (ℕ × ℕ)
indexed cents i [] = []
indexed cents i (w ∷ weights) = (i, cents * w) ∷ indexed cents (i + 1) weights

-- The comparator of `order`: the larger fraction first, then the smaller index.
abbrev pub comes_later : Platform → ℕ → ℕ × ℕ → ℕ × ℕ → Bool
comes_later pl total a b =
    if pl.fraction_lt total a.1 b.1
    then true
    else if pl.fraction_lt total b.1 a.1
    then false
    else ltb b.0 a.0

unfoldable pub order : Platform → ℕ → ℕ → List ℕ → List ℕ
unfolding sort_by
order pl cents total weights =
    map (λ e. e.0) (sort_by (comes_later pl total) (indexed cents 0 weights))

-- `slices[index] = (slices[index] ?? 0) + 1`; an array that grows has 0 in between.
unfoldable pub add_cent : ℕ → List ℕ → List ℕ
add_cent zero [] = 1 ∷ []
add_cent (suc i) [] = 0 ∷ add_cent i []
add_cent zero (s ∷ slices) = (s + 1) ∷ slices
add_cent (suc i) (s ∷ slices) = s ∷ add_cent i slices

-- The loop over `remainder`, with the cursor that turns round in `order`.
unfoldable pub hand_out : ℕ → ℕ → List ℕ → List ℕ → List ℕ
unfolding add_cent
hand_out zero cursor indices slices = slices
hand_out (suc remainder) cursor indices slices =
    hand_out remainder ((cursor + 1) % length indices) indices
      (add_cent (get_or indices cursor 0) slices)

unfoldable pub split_proportionally : Platform → ℕ → List ℕ → List ℕ
unfolding order hand_out
split_proportionally pl cents [] = []
split_proportionally pl cents (w ∷ weights) =
    let total = effective_sum (w ∷ weights) in
    let used = effective (w ∷ weights) in
    let slices = floors pl cents total used in
    hand_out (cents - sum slices) 0 (order pl cents total used) slices

pub data Grade : Type 0 where
  grade_a grade_b grade_c grade_d grade_e : Grade

pub record GradeInput : Type 0 where
  pub has_tip_evidence : Bool
  pub has_shift_evidence : Bool
  pub has_approved_allocation : Bool
  pub usdc_finalized : Bool
  pub venue_attested : Bool
  pub payroll_confirmed : Bool

unfoldable pub compute_grade : GradeInput → Grade
compute_grade i =
    let base = i.has_tip_evidence && i.has_shift_evidence in
    if base
      && i.has_approved_allocation
      && (i.usdc_finalized || i.venue_attested)
      && i.payroll_confirmed
    then grade_a
    else if base && i.has_approved_allocation && i.usdc_finalized
    then grade_b
    else if base && i.has_approved_allocation && i.venue_attested
    then grade_c
    else if base
    then grade_d
    else grade_e
