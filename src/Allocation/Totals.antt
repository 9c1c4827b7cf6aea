-- ===== src/Allocation/Totals.antt =====
-- What the two loops of `computeAllocationBatch` (packages/shared/src/allocation.ts) add up.
use serveproof.Prelude.{
  ℕ, ◌+◌, ◌*◌, ◌≡◌, inl, inr, refl, false, not, ◌&&◌, Option, none, some, List, [], ◌∷◌, Text,
  if◌then◌else◌, or_else, sum_by, Bool-cases, arith,
}
use serveproof.Allocation.Types.{TipInput, ShiftInput, PolicyInput, Issue}
use serveproof.Allocation.Maps.{map_get, includes}
use serveproof.Allocation.Keys.{keys, keys-map_set, sum-map_set}
use serveproof.Allocation.Pool.{is_full, is_canceled, pool_step, pool_loop}
use serveproof.Allocation.Scores.{
  Scores, counts, is_positive, minutes, note_unmapped, add_score, score_step, score_loop,
  score_weight,
}

-- What a tip brings to the pool: its amount, if its type is included and it is neither refunded in
-- full nor canceled.
abbrev pub tip_amount : PolicyInput → TipInput → ℕ
tip_amount policy tip =
    if or_else (policy.pool_inclusion tip.tip_type) false
      && not (is_full tip.refund_status)
      && not (is_canceled tip.payment_status)
    then tip.gross
    else 0

pool_step-amount :
    (policy : PolicyInput) (tip : TipInput) (st : ℕ × List Issue)
    → (pool_step policy tip st).0 ≡ st.0 + tip_amount policy tip
unfolding pool_step
pool_step-amount policy tip st = ground arith

pub pool_loop-sum :
    (policy : PolicyInput) (tips : List TipInput) (st : ℕ × List Issue)
    → (pool_loop policy tips st).0 ≡ st.0 + sum_by (tip_amount policy) tips
unfolding pool_loop
pool_loop-sum policy [] st = omega arith
pool_loop-sum policy (tip ∷ tips) st =
    omega
      (arith, pool_step-amount policy tip st, pool_loop-sum policy tips (pool_step policy tip st))

-- What a shift scores: its minutes times the weight of its role, if it is finished, its role is not
-- excluded and has a weight, and the minutes are positive.
abbrev pub shift_score : PolicyInput → ShiftInput → ℕ
shift_score policy s =
    if counts s.shift_status
      && not (includes policy.excluded_roles s.role)
      && is_positive s.worked_minutes
    then minutes s.worked_minutes * or_else (map_get s.role policy.role_weights) 0
    else 0

abbrev pub score_sum : Scores → ℕ
score_sum st = sum_by (λ e. e.1) st.score_by_key

-- The two maps have the same keys.
abbrev pub SameKeys : Scores → Type 0
SameKeys st = keys st.score_by_key ≡ keys st.identity_by_key

add_score-sum :
    (s : ShiftInput) (weight : ℕ) (st : Scores)
    → score_sum (add_score s weight st) ≡ score_sum st + minutes s.worked_minutes * weight
unfolding add_score
add_score-sum s weight st = sum-map_set _ (minutes s.worked_minutes * weight) st.score_by_key

add_score-SameKeys :
    (s : ShiftInput) (weight : ℕ) (st : Scores) → SameKeys st → SameKeys (add_score s weight st)
unfolding add_score
add_score-SameKeys s weight st h = keys-map_set _ _ _ st.score_by_key st.identity_by_key h

score_weight-lem :
    (s : ShiftInput) (w : Option ℕ) (st : Scores)
    → SameKeys st
    → (score_sum (score_weight s w st) ≡ score_sum st + minutes s.worked_minutes * or_else w 0)
      × SameKeys (score_weight s w st)
score_weight-lem s none st h = (omega arith, h)
score_weight-lem s (some w) st h = (add_score-sum s w st, add_score-SameKeys s w st h)

noted-SameKeys :
    (w : Option Text) (s : ShiftInput) (st : Scores) → SameKeys st → SameKeys (note_unmapped w s st)
noted-SameKeys none s st h = h
noted-SameKeys (some w) s st h = h

noted-sum :
    (w : Option Text) (s : ShiftInput) (st : Scores)
    → score_sum (note_unmapped w s st) ≡ score_sum st
noted-sum none s st = refl
noted-sum (some w) s st = refl

score_step_lem :
    (policy : PolicyInput) (s : ShiftInput) (st : Scores)
    → SameKeys st
    → (score_sum (score_step policy s st) ≡ score_sum st + shift_score policy s)
      × SameKeys (score_step policy s st)
unfolding score_step
score_step_lem policy s st h = elim (Bool-cases (counts s.shift_status)) [
  | inr e ↦ rw e (omega arith, h)
  | inl e ↦ elim (Bool-cases (includes policy.excluded_roles s.role)) [
    | inl x ↦ rw (e, x) (omega arith, h)
    | inr x ↦ elim (Bool-cases (is_positive s.worked_minutes)) [
      | inr p ↦
          rw (e, x, p)
            (omega (arith, noted-sum s.worker_id s st), noted-SameKeys s.worker_id s st h)
      | inl p ↦
          let (total, same) =
            score_weight-lem s (map_get s.role policy.role_weights) (note_unmapped s.worker_id s st)
              (noted-SameKeys s.worker_id s st h) in
          rw (e, x, p) (omega (arith, total, noted-sum s.worker_id s st), same)
    ]
  ]
]

pub score_loop_lem :
    (policy : PolicyInput) (shifts : List ShiftInput) (st : Scores)
    → SameKeys st
    → (score_sum (score_loop policy shifts st) ≡ score_sum st + sum_by (shift_score policy) shifts)
      × SameKeys (score_loop policy shifts st)
unfolding score_loop
score_loop_lem policy [] st h = (omega arith, h)
score_loop_lem policy (s ∷ shifts) st h =
    let (now, same) = score_step_lem policy s st h in
    let (later, same') = score_loop_lem policy shifts (score_step policy s st) same in
    (omega arith, same')
