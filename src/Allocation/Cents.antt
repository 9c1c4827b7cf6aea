-- ===== src/Allocation/Cents.antt =====
-- Giving out the left-over cents (packages/shared/src/allocation.ts): lemmas on `bump` and `give`.
use serveproof.Prelude.{
  ℕ, zero, suc, ◌+◌, ◌≤◌, ◌≡◌, refl, ◌∙◌, true, List, [], ◌∷◌, map, Text, sum_by, length, All,
  arith,
}
use serveproof.Allocation.Maps.{includes}
use serveproof.Allocation.Shares.{Share, share_floor, bump, give}

abbrev pub share_keys : List Share → List Text
share_keys = map (λ r. r.key)

share_keys-bump : (k : Text) (raw : List Share) → share_keys (bump k raw) ≡ share_keys raw
unfolding bump
share_keys-bump k [] = refl
share_keys-bump k (r ∷ raw) = ground (arith, share_keys-bump k raw)

pub share_keys-give :
    (n : ℕ) (order raw : List Share) → share_keys (give n order raw) ≡ share_keys raw
unfolding give
share_keys-give zero order raw = refl
share_keys-give (suc n) [] raw = refl
share_keys-give (suc n) (r ∷ order) raw =
    share_keys-give n order (bump r.key raw) ∙ share_keys-bump r.key raw

sum-bump :
    (k : Text) (raw : List Share)
    → includes (share_keys raw) k ≡ true
    → sum_by share_floor (bump k raw) ≡ sum_by share_floor raw + 1
unfolding bump includes
sum-bump k [] h = cc
sum-bump k (r ∷ raw) h = ground (arith, sum-bump k raw)

-- Every cent that is given goes to some row.
pub sum-give :
    (n : ℕ) (order raw : List Share)
    → All (λ r. includes (share_keys raw) r.key ≡ true) order
    → n ≤ length order
    → sum_by share_floor (give n order raw) ≡ sum_by share_floor raw + n
unfolding give
sum-give zero order raw known h = omega arith
sum-give (suc n) [] raw known h = elim h [ ]
sum-give (suc n) (r ∷ order) raw known h = omega (
  arith,
  sum-bump r.key raw known.0,
  sum-give n order (bump r.key raw) (rw (share_keys-bump r.key raw) known.1) (omega arith),
)
