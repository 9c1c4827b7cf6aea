-- ===== src/Allocation/Shares.antt =====
-- The split of the pool, and the whole of `computeAllocationBatch`
-- (packages/shared/src/allocation.ts).
use serveproof.Prelude.{
  ℕ, zero, suc, ◌+◌, ◌-◌, ◌*◌, Bool, true, false, Option, none, some, List, [], ◌∷◌, ◌++◌, map,
  Text, text_eq, ltb, ◌==◌, if◌then◌else◌, sum_by,
}
use serveproof.Prelude.Http.{Result, ok, err, failure, require, ◌>>=◌, ◌>>◌}
use serveproof.Prelude.Sort.{sort_by}
use serveproof.Prelude.Tables.{update_row}
use serveproof.Platform.{Platform}
use serveproof.Allocation.Types.{
  TipInput, ShiftInput, PolicyInput, empty_pool, no_eligible_shifts, no_detail, Issue, Identity,
  Allocation, Batch,
}
use serveproof.Allocation.Maps.{map_get}
use serveproof.Allocation.Pool.{pool_loop}
use serveproof.Allocation.Scores.{Scores, score_loop}

-- A row of `raw`; `product` is `poolUsdCents * score`, whose quotient's fraction is the remainder.
pub record Share : Type 0 where
  pub key : Text
  pub score : ℕ
  pub floor : ℕ
  pub product : ℕ

abbrev pub entry_score : Text × ℕ → ℕ
entry_score e = e.1

unfoldable pub raw_share : Platform → ℕ → ℕ → Text × ℕ → Share
raw_share pl pool total (key, score) = record {
  key = key;
  score = score;
  floor = pl.floor_div (pool * score) total;
  product = pool * score;
}

abbrev pub share_floor : Share → ℕ
share_floor r = r.floor

-- The comparator of `byRemainder`.
unfoldable pub behind : Platform → ℕ → Share → Share → Bool
behind pl total a b =
    if pl.fraction_lt total a.product b.product
    then true
    else if pl.fraction_lt total b.product a.product
    then false
    else pl.collate_gt a.key b.key

-- `r.floor += 1`: `raw` and `byRemainder` hold the same objects, which the keys of the map tell apart.
unfoldable pub bump : Text → List Share → List Share
unfolding update_row
bump key = update_row (λ r. text_eq r.key key) (λ r. record r { floor = r.floor + 1 })

unfoldable pub give : ℕ → List Share → List Share → List Share
give zero order raw = raw
give (suc leftover) [] raw = raw
give (suc leftover) (r ∷ order) raw = give leftover order (bump r.key raw)

unfoldable pub allocate :
    Option Identity → Share → Result (List Allocation) → Result (List Allocation)
allocate none r rest = err failure
allocate (some i) r (err e) = err e
allocate (some i) r (ok rest) =
    ok (
      record { identity = i; score = r.score; pooled_tip = r.floor; net_allocated = r.floor }
      ∷ rest)

-- `identityByKey.get(r.key)!`: a missing key is a TypeError.
unfoldable pub to_allocations : List (Text × Identity) → List Share → Result (List Allocation)
unfolding allocate
to_allocations ids [] = ok []
to_allocations ids (r ∷ raw) = allocate (map_get r.key ids) r (to_allocations ids raw)

abbrev pub pooled : Allocation → ℕ
pooled a = a.pooled_tip

-- The rows of `raw`, before the left-over cents are given out.
unfoldable pub raw_shares : Platform → ℕ → ℕ → List (Text × ℕ) → List Share
raw_shares pl pool total scores =
    map (raw_share pl pool total) (sort_by (λ a b. pl.collate_gt a.0 b.0) scores)

-- The largest-remainder split. `leftover` is not negative while the floors add up to at most the pool,
-- and the loop that gives it out does nothing where it is.
unfoldable pub split_pool : Platform → ℕ → ℕ → List (Text × ℕ) → List Share
split_pool pl pool total scores =
    let raw = raw_shares pl pool total scores in
    give (pool - sum_by share_floor raw) (sort_by (behind pl total) raw) raw

abbrev pub pool_issues : ℕ → List Issue → List Issue
pool_issues pool issues =
    if pool == 0
    then issues ++ (record { code = empty_pool; blocking = false; detail = no_detail } ∷ [])
    else issues

-- The part of `computeAllocationBatch` behind its two loops; the exception is the last `throw`.
unfoldable pub settle : Platform → ℕ → Scores → Result Batch
settle pl pool st =
    let total = sum_by entry_score st.score_by_key in
    let noted = pool_issues pool st.issues in
    if total == 0
    then ok (record {
      pool = pool;
      total_score = total;
      allocations = [];
      issues =
          noted
          ++ (record { code = no_eligible_shifts; blocking = ltb 0 pool; detail = no_detail } ∷ []);
    })
    else do
      allocations ← to_allocations st.identity_by_key (split_pool pl pool total st.score_by_key)
      require (sum_by pooled allocations == pool) failure
      ok (record { pool = pool; total_score = total; allocations = allocations; issues = noted })

unfoldable pub compute_allocation_batch :
    Platform → List TipInput → List ShiftInput → PolicyInput → Result Batch
compute_allocation_batch pl tips shifts policy =
    let (pool, issues) = pool_loop policy tips (0, []) in
    let st =
      score_loop policy shifts
        (record { score_by_key = []; identity_by_key = []; issues = issues }) in
    settle pl pool st
