-- ===== src/Allocation/Floors.antt =====
-- The rows of `raw` in `computeAllocationBatch` (packages/shared/src/allocation.ts): how far their
-- floors are below the pool.
use native.Mathlib.Nat.{div-add-mod, mod-lt}
use serveproof.Prelude.{
  ℕ, ◌+◌, ◌-◌, ◌*◌, ◌/◌, ◌≤◌, ◌<◌, ◌^◌, ◌≡◌, ◌∙◌, true, List, [], ◌∷◌, map, Text, sum_by, length,
  length-map, All-map_inv, arith,
}
use serveproof.Prelude.Sort.{sort_by, sort_by-sum, sort_by-length, sort_by-All}
use serveproof.Platform.{Platform, IsExact}
use serveproof.Allocation.Maps.{includes}
use serveproof.Allocation.Keys.{includes-All}
use serveproof.Allocation.Shares.{
  share_floor, entry_score, raw_share, raw_shares, behind, split_pool,
}
use serveproof.Allocation.Cents.{share_keys, sum-give}

pub le_cancel : (a b t : ℕ) → 0 < t → a * t ≤ b * t → a ≤ b
le_cancel a b t h e = grind arith

module _ (pl : Platform) (exact : IsExact pl) (pool total : ℕ) (some_score : 0 < total)
    (small : pool * total + total < 2 ^ 53) where
  raw_share-floor :
      (e : Text × ℕ) → e.1 ≤ total → share_floor (raw_share pl pool total e) ≡ pool * e.1 / total
  unfolding raw_share
  raw_share-floor e h = exact (pool * e.1) total some_score (grind arith)

  pub quotient_bounds : (p : ℕ) → (total * (p / total) ≤ p) × (p ≤ total * (p / total) + total)
  quotient_bounds p = grind (arith, div-add-mod p total, mod-lt p some_score)

  floors_bounds :
      (es : List (Text × ℕ))
      → sum_by entry_score es ≤ total
      → let floors = sum_by share_floor (map (raw_share pl pool total) es) in
        (total * floors ≤ pool * sum_by entry_score es)
        × (pool * sum_by entry_score es ≤ total * floors + total * length es)
  floors_bounds [] h = omega arith
  floors_bounds (e ∷ es) h =
      let (low, high) = floors_bounds es (omega arith) in
      let (low', high') = quotient_bounds (pool * e.1) in
      rw (raw_share-floor e (omega arith)) (omega arith)

  abbrev sorted_entries : List (Text × ℕ) → List (Text × ℕ)
  sorted_entries = sort_by (λ a b. pl.collate_gt a.0 b.0)

  sum-sorted_entries :
      (scores : List (Text × ℕ))
      → sum_by entry_score (sorted_entries scores) ≡ sum_by entry_score scores
  sum-sorted_entries scores = sort_by-sum _ entry_score scores

  -- The floors leave at most one cent a row.
  leftover-le :
      (scores : List (Text × ℕ))
      → sum_by entry_score scores ≡ total
      → let raw = raw_shares pl pool total scores in
        (sum_by share_floor raw ≤ pool)
        × (pool - sum_by share_floor raw ≤ length (sort_by (behind pl total) raw))
  unfolding raw_shares
  leftover-le scores e =
      let es = sorted_entries scores in
      let raw = raw_shares pl pool total scores in
      let (low, high) = floors_bounds es (omega (arith, sum-sorted_entries scores)) in
      let whole : sum_by entry_score es ≡ total = sum-sorted_entries scores ∙ e in
      let low' : sum_by share_floor raw * total ≤ pool * total = omega (arith, (rw whole at low)) in
      let high' : pool * total ≤ (sum_by share_floor raw + length es) * total =
        omega (arith, (rw whole at high)) in
      let count : length (sort_by (behind pl total) raw) ≡ length es =
        sort_by-length (behind pl total) raw ∙ length-map es (raw_share pl pool total) in
      (
        le_cancel (sum_by share_floor raw) pool total some_score low',
        omega (
          arith,
          count,
          le_cancel pool (sum_by share_floor raw + length es) total some_score high',
        ),
      )

  pub sum-split_pool :
      (scores : List (Text × ℕ))
      → sum_by entry_score scores ≡ total
      → sum_by share_floor (split_pool pl pool total scores) ≡ pool
  unfolding split_pool
  sum-split_pool scores e =
      let raw = raw_shares pl pool total scores in
      let (low, high) = leftover-le scores e in
      let known =
        sort_by-All (behind pl total) (λ r. includes (share_keys raw) r.key ≡ true) raw
          (All-map_inv _ (λ r. r.key) raw (includes-All (share_keys raw))) in
      omega (
        arith,
        sum-give (pool - sum_by share_floor raw) (sort_by (behind pl total) raw) raw known high,
      )
