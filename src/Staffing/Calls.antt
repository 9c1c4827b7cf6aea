-- ===== src/Staffing/Calls.antt =====
-- The calls of `StaffingService` (apps/api/src/staffing/staffing.service.ts) that write, and a history
-- of such calls, each at its instant.
use serveproof.Prelude.{ℕ, Option, List, [], ◌∷◌, Text}
use serveproof.Prelude.Http.{Result, after}
use serveproof.Staffing.Types.{Store, Runtime}
use serveproof.Staffing.Shifts.{ShiftInput, create_shift, publish_shift, cancel_shift, invite}
use serveproof.Staffing.Assignments.{
  Response, respond, clock_in, clock_out, cancel_assignment, mark_no_show,
}
use serveproof.Staffing.Approval.{approve_assignment}

pub data Call : Type 0 where
  create : ℕ → ℕ → ShiftInput → Call
  publish : ℕ → ℕ → Call
  cancel : ℕ → ℕ → Option Text → Call
  invite_worker : ℕ → ℕ → ℕ → Call
  answer : ℕ → ℕ → Response → Call
  begin finish : ℕ → ℕ → Call
  withdraw_from : ℕ → ℕ → Option Text → Call
  approve miss : ℕ → ℕ → Call

unfoldable pub perform : Runtime → ℕ → Call → Store → Result Store
unfolding create_shift publish_shift cancel_shift invite respond clock_in clock_out
    cancel_assignment approve_assignment mark_no_show
perform rt now (create venue actor input) st = create_shift venue actor input st
perform rt now (publish i actor) st = publish_shift now i actor st
perform rt now (cancel i actor why) st = cancel_shift now i actor why st
perform rt now (invite_worker i worker actor) st = invite i worker actor st
perform rt now (answer i user r) st = respond now i user r st
perform rt now (begin i user) st = clock_in now i user st
perform rt now (finish i user) st = clock_out now i user st
perform rt now (withdraw_from i user why) st = cancel_assignment now i user why st
perform rt now (approve i actor) st = approve_assignment rt now i actor st
perform rt now (miss i actor) st = mark_no_show now i actor st

-- A call that throws writes nothing.
unfoldable pub run : Runtime → List (ℕ × Call) → Store → Store
unfolding perform after
run rt [] st = st
run rt ((now, c) ∷ cs) st = run rt cs (after st (perform rt now c st))
