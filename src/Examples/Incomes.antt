-- ===== src/Examples/Incomes.antt =====
-- `splitProportionally` (packages/db/src/income-projector.ts) at a concrete input.
use serveproof.Prelude.{◌≡◌, [], ◌∷◌, sum, arith}
use serveproof.Platform.{exact_platform, exact_platform-IsExact}
use serveproof.Income.Split.{split_proportionally}
use serveproof.Income.Whole.{sum-split_proportionally}

sum-split_proportionally_example :
    sum (split_proportionally exact_platform 100 (1 ∷ 1 ∷ 1 ∷ [])) ≡ 100
sum-split_proportionally_example =
    sum-split_proportionally exact_platform 100 1 (1 ∷ 1 ∷ []) exact_platform-IsExact (omega arith)
