-- ===== src/Platform.antt =====
-- The operations of the JavaScript runtime whose results the sources do not fix: string collation
-- by `localeCompare`, and division of doubles. They are parameters of the definitions that use them.
use serveproof.Prelude.{
  ℕ, ◌+◌, ◌/◌, ◌%◌, ◌^◌, ◌<◌, ◌≡◌, refl, Bool, false, true, [], ◌∷◌, Text, ltb, ◌==◌, if◌then◌else◌,
}

pub record Platform : Type 0 where
  -- `a.localeCompare(b) > 0`.
  pub collate_gt : Text → Text → Bool
  -- `Math.floor(p / t)`.
  pub floor_div : ℕ → ℕ → ℕ
  -- `fraction_lt t p q` compares the fractions of two quotients with the divisor `t`:
  -- `p / t - Math.floor(p / t) < q / t - Math.floor(q / t)`.
  pub fraction_lt : ℕ → ℕ → ℕ → Bool

-- IEEE division rounds to nearest: the rounded quotient of `p` by `t` passes no whole number while
-- `p + t` is at most 2 ^ 53.
abbrev pub IsExact : Platform → Type 0
IsExact pl = (p t : ℕ) → 0 < t → p + t < 2 ^ 53 → pl.floor_div p t ≡ p / t

-- Code-unit order, and exact fractions.
unfoldable pub text_gt : Text → Text → Bool
text_gt [] b = false
text_gt (x ∷ xs) [] = true
text_gt (x ∷ xs) (y ∷ ys) = let rest = text_gt xs ys in if x == y then rest else ltb y x

abbrev pub exact_platform : Platform
exact_platform = record {
  collate_gt = text_gt;
  floor_div = λ p t. p / t;
  fraction_lt = λ t p q. ltb (p % t) (q % t);
}

pub exact_platform-IsExact : IsExact exact_platform
exact_platform-IsExact p t h k = refl
