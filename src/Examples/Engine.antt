-- ===== src/Examples/Engine.antt =====
-- The engine and the shared helpers (packages/shared/src) at concrete inputs.
use serveproof.Prelude.{refl, Text, ◌++◌}
use serveproof.Prelude.Int.{negsuc}
use serveproof.Shared.Usd.{parse_usd_to_cents, format_cents_to_usd}
use serveproof.Shared.UsdTrip.{parse_usd_to_cents-format_cents_to_usd}
use serveproof.Shared.Base58.{push_byte, add_carry, carry_digits}
use serveproof.Shared.Digits.{push_byte-ends}
use serveproof.Prelude.{
  ℕ, ◌<◌, ◌≡◌, ◌⊎◌, ◌↔◌, true, none, some, List, [], ◌∷◌, Text, text, text_eq, sum_by, All, arith,
}
use serveproof.Prelude.Int.{pos}
use serveproof.Prelude.Http.{ok}
use serveproof.Allocation.Maps.{map_get, includes}
use serveproof.Platform.{exact_platform, exact_platform-IsExact}
use serveproof.Allocation.Types.{
  card_tip, cash_tip, TipInput, ShiftInput, PolicyInput, approved, Batch,
}
use serveproof.Allocation.Shares.{compute_allocation_batch, pooled}
use serveproof.Allocation.Totals.{tip_amount, shift_score}
use serveproof.Allocation.Exact.{compute_allocation_batch-exact}
use serveproof.Shared.BaseUnits.{cents_to_base_units, base_units_to_cents, base_units_to_cents_iff}
use serveproof.Shared.Base58.{value_of, push_bytes, bytes_value}
use serveproof.Shared.Digits.{value_of-push_bytes}

abbrev tips : List TipInput
tips =
    record { tip_type = card_tip; gross = 1000; payment_status = none; refund_status = none }
    ∷ record { tip_type = cash_tip; gross = 7; payment_status = none; refund_status = none }
    ∷ []

abbrev shift_of : Text → Text → ℕ → ShiftInput
shift_of worker role minutes = record {
  worker_id = some worker;
  external_worker_id = worker;
  provider = text "square";
  role = role;
  worked_minutes = pos minutes;
  shift_status = approved;
}

abbrev shifts : List ShiftInput
shifts =
    shift_of (text "a") (text "server") 300
    ∷ shift_of (text "b") (text "bar") 240
    ∷ shift_of (text "a") (text "bar") 60
    ∷ []

abbrev policy : PolicyInput
policy = record {
  role_weights = (text "server", 10) ∷ (text "bar", 7) ∷ [];
  excluded_roles = [];
  pool_inclusion = λ t. some true;
}

abbrev pool : ℕ
pool = sum_by (tip_amount policy) tips

abbrev total : ℕ
total = sum_by (shift_score policy) shifts

compute_allocation_batch-exact_example :
    (b : Batch) × (compute_allocation_batch exact_platform tips shifts policy ≡ ok b)
    × (b.pool ≡ pool)
    × (b.total_score ≡ total)
    × (((0 < b.total_score) × (sum_by pooled b.allocations ≡ b.pool))
        ⊎ ((b.total_score ≡ 0) × (b.allocations ≡ [])))
unfolding text_eq map_get includes
compute_allocation_batch-exact_example =
    compute_allocation_batch-exact exact_platform tips shifts policy exact_platform-IsExact
      (omega arith)

base_units_to_cents_iff_example :
    (base_units_to_cents 120000 ≡ some 12) ↔ (cents_to_base_units 12 ≡ 120000)
base_units_to_cents_iff_example = base_units_to_cents_iff 120000 12

value_of-push_bytes_example :
    (value_of (push_bytes (0 ∷ []) (1 ∷ 255 ∷ [])) ≡ bytes_value (value_of (0 ∷ [])) (1 ∷ 255 ∷ []))
    × All (λ d. d < 58) (push_bytes (0 ∷ []) (1 ∷ 255 ∷ []))
value_of-push_bytes_example =
    value_of-push_bytes (0 ∷ []) (1 ∷ 255 ∷ []) (omega arith, tt) (omega arith, (omega arith, tt))

parse_usd_to_cents-format_cents_to_usd_example :
    parse_usd_to_cents (format_cents_to_usd (negsuc 1204)) ≡ some (negsuc 1204)
parse_usd_to_cents-format_cents_to_usd_example =
    parse_usd_to_cents-format_cents_to_usd (negsuc 1204)

minus_twelve : format_cents_to_usd (negsuc 1204) ≡ text "-12.05"
unfolding format_cents_to_usd
minus_twelve = refl

push_byte-ends_example :
    push_byte (57 ∷ 3 ∷ []) 255
    ≡ (add_carry (57 ∷ 3 ∷ []) 255).0 ++ carry_digits 6 (add_carry (57 ∷ 3 ∷ []) 255).1
push_byte-ends_example =
    push_byte-ends 4 255 (57 ∷ 3 ∷ []) (omega arith, (omega arith, tt)) (omega arith)
