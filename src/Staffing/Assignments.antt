-- ===== src/Staffing/Assignments.antt =====
-- `StaffingService` (apps/api/src/staffing/staffing.service.ts): what becomes of an assignment.
-- Each method takes the instant of its call and returns the store that it leaves, or the exception.
use serveproof.Prelude.{
  ℕ, Bool, true, false, not, ◌&&◌, ◌||◌, Option, none, some, ◌++◌, Text, text, ltb, leb, ◌==◌,
  if◌then◌else◌, or_else,
}
use serveproof.Prelude.Http.{Result, ok, bad_request, conflict, require, ◌>>=◌, ◌>>◌}
use serveproof.Prelude.Tables.{find_row, count_rows}
use serveproof.Staffing.Types.{
  opened, filled, in_progress, AssignmentStatus, invited, accepted, declined, withdrawn, clocked_in,
  clocked_out, no_show, OpenShift, Assignment, Worker, no_detail, reason, at, Store,
}
use serveproof.Staffing.Queries.{
  is_active, is_pending, is_opened, is_filled, is_accepted, is_clocked_in, is_slot, set_shift,
  set_assignment, audit, get_shift, get_worker, is_connected, get_assignment, worker_assignment,
  trimmed, blank_assignment, slot_id, has_active, save_slot,
}

pub data Response : Type 0 where
  accept decline : Response

abbrev pub is_accept : Response → Bool
is_accept accept = true
is_accept decline = false

abbrev pub response_status : Response → AssignmentStatus
response_status accept = accepted
response_status decline = declined

-- "SHIFT_" + response + "ED".
abbrev pub response_action : Response → Text
response_action accept = text "SHIFT_" ++ (text "ACCEPT" ++ text "ED")
response_action decline = text "SHIFT_" ++ (text "DECLINE" ++ text "ED")

abbrev pub active_in : ℕ → Assignment → Bool
active_in shift a = a.open_shift == shift && is_active a.status

unfoldable pub active_count : ℕ → Store → ℕ
unfolding count_rows
active_count shift st = count_rows (active_in shift) st.assignments

abbrev pub answered : ℕ → Response → Assignment → Assignment
answered now r a = record a {
  status = response_status r;
  responded_at = some now;
  cancellation_reason = none;
}

-- The end of the transaction and the audit row.
unfoldable pub record_answer : ℕ → ℕ → ℕ → Response → Worker → OpenShift → Store → Store
unfolding find_row active_count save_slot set_shift audit
record_answer now i user r w s st =
    let existing = find_row (is_slot i w.id) st.assignments in
    let saved =
      save_slot i w.id (answered now r)
        (answered now r (blank_assignment st.next_id i w.id invited)) st in
    let status = if leb s.headcount (active_count i saved) then filled else opened in
    audit s.venue user (response_action r) (slot_id existing st.next_id) no_detail
      (set_shift i (λ o. record o { status = status }) saved)

unfoldable pub respond : ℕ → ℕ → ℕ → Response → Store → Result Store
unfolding get_worker get_shift is_connected find_row active_count record_answer
respond now i user r st = do
  w ← get_worker user st
  s ← get_shift i st
  require (is_connected s.venue w.id st) bad_request
  require (not (is_accept r) || is_opened s.status) conflict
  let existing = find_row (is_slot i w.id) st.assignments
  require (not (is_accept r) || has_active existing || ltb (active_count i st) s.headcount) conflict
  ok (record_answer now i user r w s st)

unfoldable pub clock_in : ℕ → ℕ → ℕ → Store → Result Store
unfolding worker_assignment set_assignment set_shift audit
clock_in now i user st = do
  (a, s) ← worker_assignment i user st
  require (is_accepted a.status) conflict
  let st' = set_assignment i (λ r. record r { status = clocked_in; check_in_at = some now }) st
  let st'' = set_shift a.open_shift (λ o. record o { status = in_progress }) st'
  ok (audit s.venue user (text "SHIFT_CLOCKED_IN") i (at now) st'')

unfoldable pub clock_out : ℕ → ℕ → ℕ → Store → Result Store
unfolding worker_assignment set_assignment audit
clock_out now i user st = do
  (a, s) ← worker_assignment i user st
  require (is_clocked_in a.status) conflict
  let st' = set_assignment i (λ r. record r { status = clocked_out; check_out_at = some now }) st
  ok (audit s.venue user (text "SHIFT_CLOCKED_OUT") i (at now) st')

-- A filled shift that has not begun takes workers again.
unfoldable pub reopen : ℕ → OpenShift → Store → Store
unfolding set_shift
reopen now s st =
    if is_filled s.status && ltb now s.starts_at
    then set_shift s.id (λ o. record o { status = opened }) st
    else st

unfoldable pub cancel_assignment : ℕ → ℕ → ℕ → Option Text → Store → Result Store
unfolding worker_assignment set_assignment reopen audit
cancel_assignment now i user why st = do
  (a, s) ← worker_assignment i user st
  require (is_pending a.status) conflict
  let st' =
      set_assignment i
        (λ r. record r {
          status = withdrawn;
          cancellation_reason = some (or_else (trimmed why) (text "Cancelled by worker"));
          responded_at = some now;
        })
        st
  ok (
      audit s.venue user (text "SHIFT_ASSIGNMENT_CANCELLED") i (reason (trimmed why))
        (reopen now s st'))

unfoldable pub mark_no_show : ℕ → ℕ → ℕ → Store → Result Store
unfolding get_assignment set_assignment reopen audit
mark_no_show now i actor st = do
  (a, s) ← get_assignment i st
  require (is_pending a.status) conflict
  let st' = set_assignment i (λ r. record r { status = no_show }) st
  ok (audit s.venue actor (text "SHIFT_MARKED_NO_SHOW") i no_detail (reopen now s st'))
