-- ===== src/Batches/Plan.antt =====
-- The planned rails of `calculate` (apps/api/src/allocations/allocations.service.ts): the rail that a
-- worker's shifts name, unless two of them differ.
use serveproof.Prelude.{
  ℕ, Bool, not, Option, none, some, List, [], ◌∷◌, Text, text_eq, ◌==◌, if◌then◌else◌,
}
use serveproof.Allocation.Maps.{map_get, map_set, includes}
use serveproof.Settlement.Types.{
  Rail, cash_retained, cash_drawer, payroll, payout_provider, bank_reference, usdc,
}
use serveproof.Batches.Types.{ShiftRow}

abbrev pub rail_code : Rail → ℕ
rail_code cash_retained = 0
rail_code cash_drawer = 1
rail_code payroll = 2
rail_code payout_provider = 3
rail_code bank_reference = 4
rail_code usdc = 5

-- `===` of two rails.
abbrev pub same_rail : Rail → Rail → Bool
same_rail a b = rail_code a == rail_code b

unfoldable pub map_delete {ℓ} : {V : Type ℓ} → Text → List (Text × V) → List (Text × V)
map_delete k [] = []
map_delete k ((j, v) ∷ m) = let rest = map_delete k m in if text_eq j k then rest else (j, v) ∷ rest

-- `plannedRailByWorker` and `conflictingRailWorkers`.
pub record Plan : Type 0 where
  pub rails : List (Text × Rail)
  pub conflicts : List Text

abbrev pub note_rail : Text → Rail → Option Rail → Plan → Plan
note_rail w r (some previous) plan =
    if not (same_rail previous r)
    then record { rails = map_delete w plan.rails; conflicts = w ∷ plan.conflicts }
    else if includes plan.conflicts w
    then plan
    else record plan { rails = map_set w r plan.rails }
note_rail w r none plan =
    if includes plan.conflicts w then plan else record plan { rails = map_set w r plan.rails }

-- One round of the loop over the shifts.
abbrev pub plan_shift : Option Text → Option Rail → Plan → Plan
plan_shift (some w) (some r) plan = note_rail w r (map_get w plan.rails) plan
plan_shift _ _ plan = plan

unfoldable pub plan_loop : List ShiftRow → Plan → Plan
unfolding map_get map_set map_delete includes
plan_loop [] plan = plan
plan_loop (s ∷ shifts) plan = plan_loop shifts (plan_shift s.input.worker_id s.source_rail plan)

unfoldable pub plan_rails : List ShiftRow → List (Text × Rail)
unfolding plan_loop
plan_rails shifts = (plan_loop shifts (record { rails = []; conflicts = [] })).rails
