-- ===== src/Shared/BaseUnits.antt =====
-- USD cents and USDC base units (packages/shared/src/money.ts). Cents are whole and not negative here, so
-- the first check of `centsToUsdcBaseUnits` passes.
use serveproof.Prelude.{
  ℕ, ◌*◌, ◌/◌, ◌%◌, ◌≡◌, ◌↔◌, not, Option, none, some, ◌==◌, if◌then◌else◌, arith,
}

unfoldable pub cents_to_base_units : ℕ → ℕ
cents_to_base_units cents = cents * 10000

-- `none` is the exception for sub-cent precision.
unfoldable pub base_units_to_cents : ℕ → Option ℕ
base_units_to_cents units = if not (units % 10000 == 0) then none else some (units / 10000)

-- Converting back gives the cents, and a base-unit amount converts to cents exactly when it is one that
-- some cents convert to.
pub base_units_to_cents_iff :
    (units cents : ℕ)
    → (base_units_to_cents units ≡ some cents) ↔ (cents_to_base_units cents ≡ units)
unfolding base_units_to_cents cents_to_base_units
base_units_to_cents_iff units cents = (λ h. ground arith, λ h. ground arith)
