-- ===== src/Allocation/Keys.antt =====
-- The keys of the engine's maps (packages/shared/src/allocation.ts).
use serveproof.Prelude.{
  ℕ, ◌+◌, ◌≡◌, refl, true, List, [], ◌∷◌, map, Text, text_eq_refl, or_else, is_some, sum_by, All,
  All-mono, arith,
}
use serveproof.Allocation.Maps.{map_get, map_set, includes}

module _ {ℓ} {V : Type ℓ} where
  abbrev pub keys : List (Text × V) → List Text
  keys = map (λ e. e.0)

  pub map_get-keys : (k : Text) (m : List (Text × V)) → is_some (map_get k m) ≡ includes (keys m) k
  unfolding map_get includes
  map_get-keys k [] = refl
  map_get-keys k ((j, v) ∷ m) = ground (arith, map_get-keys k m)

pub keys-map_set {ℓ κ} :
    {V : Type ℓ} {W : Type κ} (k : Text) (v : V) (w : W) (m : List (Text × V)) (n : List (Text × W))
    → keys m ≡ keys n
    → keys (map_set k v m) ≡ keys (map_set k w n)
unfolding map_set
keys-map_set k v w [] [] h = refl
keys-map_set k v w [] (y ∷ n) h = cc
keys-map_set k v w (x ∷ m) [] h = cc
keys-map_set k v w ((i, x) ∷ m) ((j, y) ∷ n) h = ground (arith, keys-map_set k v w m n)

-- Adding to the value under a key adds to the sum of the values.
pub sum-map_set :
    (k : Text) (v : ℕ) (m : List (Text × ℕ))
    → sum_by (λ e. e.1) (map_set k (or_else (map_get k m) 0 + v) m) ≡ sum_by (λ e. e.1) m + v
unfolding map_set map_get
sum-map_set k v [] = omega arith
sum-map_set k v ((j, w) ∷ m) = ground (arith, sum-map_set k v m)

includes-cons :
    (x : Text) (xs : List Text) (k : Text) → includes xs k ≡ true → includes (x ∷ xs) k ≡ true
unfolding includes
includes-cons x xs k h = ground arith

pub includes-All : (ks : List Text) → All (λ k. includes ks k ≡ true) ks
unfolding includes
includes-All [] = tt
includes-All (k ∷ ks) = (rw (text_eq_refl k), All-mono ks (includes-cons k ks) (includes-All ks))
