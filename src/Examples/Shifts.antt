-- ===== src/Examples/Shifts.antt =====
-- `StaffingService` (apps/api/src/staffing/staffing.service.ts) at concrete inputs.
use serveproof.Prelude.{
  ℕ, ◌≤◌, ◌≡◌, ◌⊎◌, inl, inr, refl, Bool-cases, if◌then◌else◌, leb, none, some, List, [], ◌∷◌, text,
  ◌==◌, arith,
}
use serveproof.Prelude.Http.{ok, after, methods}
use serveproof.Prelude.Tables.{find_row}
use serveproof.Staffing.Types.{
  opened, filled, cancelled, clocked_out, OpenShiftStatus, OpenShift, Assignment, Store, Runtime,
}
use serveproof.Staffing.Queries.{find_shift, is_connected, blank_assignment}
use serveproof.Staffing.Shifts.{cancel_shift}
use serveproof.Staffing.Assignments.{accept, decline, active_count, respond}
use serveproof.Staffing.Approval.{approve_assignment}
use serveproof.Staffing.Calls.{Call, answer, run}
use serveproof.Staffing.Capacity.{Within, capacity}
use serveproof.Staffing.Headcount.{run-active_count-le}
use serveproof.Staffing.Outcomes.{Cancels, cancel_shift_lem, respond-decline_reopens}
use serveproof.Staffing.Approved.{IsApproved, Approves, approve_assignment_lem}

abbrev bar_shift : OpenShiftStatus → OpenShift
bar_shift status = record {
  id = 1;
  venue = 3;
  created_by = 9;
  role = text "bar";
  description = none;
  starts_at = 1000;
  ends_at = 2000;
  hourly_rate = 2000;
  expected_tip = 0;
  headcount = 1;
  status = status;
  published_at = some 5;
  cancelled_at = none;
}

abbrev two_workers : OpenShiftStatus → List Assignment → Store
two_workers status rows = record {
  open_shifts = bar_shift status ∷ [];
  assignments = rows;
  workers = record { id = 10; user = 100 } ∷ record { id = 20; user = 200 } ∷ [];
  connections = record { venue = 3; worker = 10 } ∷ record { venue = 3; worker = 20 } ∷ [];
  evidence_rows = [];
  audit_log = [];
  next_id = 50;
}

abbrev both_accept : List (ℕ × Call)
both_accept = (10, answer 1 100 accept) ∷ (11, answer 1 200 accept) ∷ []

abbrev runtime : Runtime
runtime = record { business_date = λ t v. text "2026-07-18"; source_hash = λ a w x y r. [] }

market-Within : Within (two_workers opened [])
unfolding find_row capacity active_count
market-Within = record {
  fits = λ i. elim (Bool-cases (1 == i)) [ inl e ↦ rw e (omega arith) | inr e ↦ rw e tt ];
  fresh_shifts = (omega arith, tt);
  fresh_slots = tt;
}

run-active_count-le_example : active_count 1 (run runtime both_accept (two_workers opened [])) ≤ 1
unfolding run active_count find_shift methods
run-active_count-le_example =
    run-active_count-le runtime both_accept (two_workers opened []) 1 {s = bar_shift filled}
      market-Within refl

respond-decline_reopens_example :
    (st' : Store) × (respond 7 1 100 decline (two_workers cancelled []) ≡ ok st')
    × (find_shift 1 st'.open_shifts
        ≡ some (bar_shift (if leb 1 (active_count 1 st') then filled else opened)))
unfolding find_row find_shift is_connected
respond-decline_reopens_example =
    respond-decline_reopens 7 1 100 (two_workers cancelled []) (record { id = 10; user = 100 })
      (bar_shift cancelled) refl refl refl

abbrev cancelled_market : Store
cancelled_market = after (two_workers opened []) (cancel_shift 6 1 9 none (two_workers opened []))

cancel_shift_lem_example : Cancels 6 1 (two_workers opened []) cancelled_market
unfolding cancel_shift after methods
cancel_shift_lem_example =
    cancel_shift_lem 6 1 9 none (two_workers opened []) {st' = cancelled_market} refl

abbrev worked_row : Assignment
worked_row = record (blank_assignment 40 1 10 clocked_out) {
  check_in_at = some 1000;
  check_out_at = some 3601000;
}

abbrev worked_market : Store
worked_market = two_workers filled (worked_row ∷ [])

abbrev approved_market : Store
approved_market = after worked_market (approve_assignment runtime 9000000 40 9 worked_market)

approve_assignment_lem_example :
    ((approved_market ≡ worked_market) × IsApproved 40 worked_market)
    ⊎ Approves runtime 9000000 40 9 worked_market approved_market
unfolding approve_assignment after methods
approve_assignment_lem_example =
    approve_assignment_lem runtime 9000000 40 9 worked_market {st' = approved_market} refl
