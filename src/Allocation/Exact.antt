-- ===== src/Allocation/Exact.antt =====
-- `computeAllocationBatch` (packages/shared/src/allocation.ts) as a whole.
use serveproof.Prelude.{
  ℕ, ◌+◌, ◌-◌, ◌*◌, ◌<◌, ◌^◌, ◌≡◌, ◌⊎◌, inl, inr, inl, inr, refl, ap, sym, ◌∙◌, true, none, List,
  [], ◌∷◌, ◌++◌, map, Text, ltb, ◌==◌, ==_refl, is_some, sum_by, All, All-map, All-map_inv,
  Bool-cases, Option-cases, arith,
}
use mathlib.Core.Path.{subst}
use serveproof.Prelude.Http.{ok, methods}
use serveproof.Prelude.Sort.{sort_by, sort_by-All}
use serveproof.Platform.{Platform, IsExact}
use serveproof.Allocation.Types.{
  TipInput, ShiftInput, PolicyInput, Allocation, Identity, Batch, no_eligible_shifts, no_detail,
}
use serveproof.Allocation.Maps.{map_get, includes}
use serveproof.Allocation.Keys.{keys, map_get-keys, includes-All}
use serveproof.Allocation.Pool.{pool_loop}
use serveproof.Allocation.Scores.{Scores, score_loop}
use serveproof.Allocation.Totals.{
  tip_amount, shift_score, score_sum, SameKeys, pool_loop-sum, score_loop_lem,
}
use serveproof.Allocation.Shares.{
  Share, share_floor, pooled, raw_share, raw_shares, behind, split_pool, to_allocations,
  pool_issues, settle, compute_allocation_batch,
}
use serveproof.Allocation.Cents.{share_keys, share_keys-give}
use serveproof.Allocation.Floors.{sum-split_pool}

abbrev IsKnown : List (Text × Identity) → Share → Type 0
IsKnown ids r = includes (keys ids) r.key ≡ true

to_allocations_known :
    (ids : List (Text × Identity)) (raw : List Share)
    → All (IsKnown ids) raw
    → (given : List Allocation) × (to_allocations ids raw ≡ ok given)
      × (sum_by pooled given ≡ sum_by share_floor raw)
unfolding to_allocations
to_allocations_known ids [] known = ([], refl, refl)
to_allocations_known ids (r ∷ raw) known =
    let (given, done, total) = to_allocations_known ids raw known.1 in
    elim (Option-cases (map_get r.key ids)) [
      | inl e ↦ absurd (missing e)
      | inr (i, e) ↦ (
        record { identity = i; score = r.score; pooled_tip = r.floor; net_allocated = r.floor }
            ∷ given,
        rw (e, done),
        omega arith,
      )
    ]
  where
    missing : map_get r.key ids ≡ none → ⊥
    missing e = cc (map_get-keys r.key ids, known.0, ap is_some e)

share_keys-raw :
    (pl : Platform) (pool total : ℕ) (es : List (Text × ℕ))
    → share_keys (map (raw_share pl pool total) es) ≡ keys es
unfolding raw_share
share_keys-raw pl pool total [] = refl
share_keys-raw pl pool total ((k, s) ∷ es) = ap (◌∷◌ k) (share_keys-raw pl pool total es)

keys-split_pool :
    (pl : Platform) (pool total : ℕ) (scores : List (Text × ℕ)) (ids : List (Text × Identity))
    → keys scores ≡ keys ids
    → All (IsKnown ids) (split_pool pl pool total scores)
unfolding split_pool raw_shares
keys-split_pool pl pool total scores ids same =
    All-map_inv (λ k. includes (keys ids) k ≡ true) (λ r. r.key) (split_pool pl pool total scores)
      (rw
        (
          share_keys-give (pool - sum_by share_floor raw) (sort_by (behind pl total) raw) raw,
          share_keys-raw pl pool total es,
        )
        (All-map _ (λ e. e.0) es known))
  where
    es : List (Text × ℕ)
    es = sort_by (λ a b. pl.collate_gt a.0 b.0) scores

    raw : List Share
    raw = map (raw_share pl pool total) es

    known : All (λ e. includes (keys ids) e.0 ≡ true) es
    known =
        sort_by-All _ (λ e. includes (keys ids) e.0 ≡ true) scores
          (All-map_inv _ (λ e. e.0) scores
            (subst (λ ks. All (λ k. includes ks k ≡ true) (keys scores)) same
              (includes-All (keys scores))))

settle_ok :
    (pl : Platform) (pool : ℕ) (st : Scores)
    → IsExact pl
    → SameKeys st
    → pool * score_sum st + score_sum st < 2 ^ 53
    → (b : Batch) × (settle pl pool st ≡ ok b)
      × (b.pool ≡ pool)
      × (b.total_score ≡ score_sum st)
      × (((0 < score_sum st) × (sum_by pooled b.allocations ≡ pool))
          ⊎ ((score_sum st ≡ 0) × (b.allocations ≡ [])))
unfolding settle methods
settle_ok pl pool st exact same small = elim (Bool-cases (score_sum st == 0)) [
  | inl e ↦ (
    record {
      pool = pool;
      total_score = score_sum st;
      allocations = [];
      issues =
          pool_issues pool st.issues
          ++ (record { code = no_eligible_shifts; blocking = ltb 0 pool; detail = no_detail } ∷ []);
    },
    rw e refl,
    refl,
    refl,
    inr (ground arith, refl),
  )
  | inr e ↦
      let total = score_sum st in
      let positive : 0 < total = ground arith in
      let shares = split_pool pl pool total st.score_by_key in
      let (given, done, sums) =
        to_allocations_known st.identity_by_key shares
          (keys-split_pool pl pool total st.score_by_key st.identity_by_key same) in
      let whole : sum_by pooled given ≡ pool =
        sums ∙ sum-split_pool pl exact pool total positive small st.score_by_key refl in
      (
        record {
          pool = pool;
          total_score = total;
          allocations = given;
          issues = pool_issues pool st.issues;
        },
        rw (e, done, whole, ==_refl pool) refl,
        refl,
        refl,
        inl (positive, whole),
      )
]

-- Whatever the tips, shifts and policy are, while the pool times the total score is exact in a double,
-- the engine does not throw; its pool is the sum of the amounts of the included tips that are neither
-- refunded in full nor canceled, its total score that of the countable shifts, and either that is
-- above 0 and the allocations add up to the pool to the cent, or it is 0 and there are none.
pub compute_allocation_batch-exact :
    (pl : Platform) (tips : List TipInput) (shifts : List ShiftInput) (policy : PolicyInput)
    → IsExact pl
    → sum_by (tip_amount policy) tips * sum_by (shift_score policy) shifts
        + sum_by (shift_score policy) shifts
      < 2 ^ 53
    → (b : Batch) × (compute_allocation_batch pl tips shifts policy ≡ ok b)
      × (b.pool ≡ sum_by (tip_amount policy) tips)
      × (b.total_score ≡ sum_by (shift_score policy) shifts)
      × (((0 < b.total_score) × (sum_by pooled b.allocations ≡ b.pool))
          ⊎ ((b.total_score ≡ 0) × (b.allocations ≡ [])))
unfolding compute_allocation_batch
compute_allocation_batch-exact pl tips shifts policy exact small =
    let start : Scores = record {
      score_by_key = [];
      identity_by_key = [];
      issues = (pool_loop policy tips (0, [])).1;
    } in
    let pool = (pool_loop policy tips (0, [])).0 in
    let st = score_loop policy shifts start in
    let cents : pool ≡ sum_by (tip_amount policy) tips =
      omega (arith, pool_loop-sum policy tips (0, [])) in
    let (scored, same) = score_loop_lem policy shifts start refl in
    let score : score_sum st ≡ sum_by (shift_score policy) shifts = omega (arith, scored) in
    let (b, done, pooled_all, total, split) =
      settle_ok pl pool st exact same (rw (cents, score) small) in
    (
      b,
      done,
      pooled_all ∙ cents,
      total ∙ score,
      elim split [
        | inl (positive, given) ↦ inl (omega arith, given ∙ sym pooled_all)
        | inr (zero_sum, empty) ↦ inr (omega arith, empty)
      ],
    )
