-- ===== src/Staffing/Outcomes.antt =====
-- What single methods of `StaffingService` (apps/api/src/staffing/staffing.service.ts) leave behind.
use serveproof.Prelude.{
  ℕ, ◌≡◌, refl, true, false, not, ◌&&◌, Option, none, some, Text, leb, ◌==◌, if◌then◌else◌, is_some,
  All, arith,
}
use serveproof.Prelude.Http.{ok, OnOk, OnOk-or_throw, OnOk-require, OnOk-ok, returns, methods}
use serveproof.Prelude.Tables.{find_row, find_row-true, find_row-update_row, None-update_rows}
use serveproof.Staffing.Types.{opened, filled, cancelled, OpenShift, Assignment, Worker, Store}
use serveproof.Staffing.Queries.{
  is_pending, is_working, is_over, find_shift, get_shift, get_worker, is_connected,
}
use serveproof.Staffing.Shifts.{withdraw, cancel_shift}
use serveproof.Staffing.Assignments.{Response, decline, record_answer, active_count, respond}

record_answer-shift :
    (now i user : ℕ) (r : Response) (u : Worker) (s : OpenShift) (st : Store)
    → find_shift i st.open_shifts ≡ some s
    → let st' = record_answer now i user r u s st in
      find_shift i st'.open_shifts
      ≡ some (record s { status = if leb s.headcount (active_count i st') then filled else opened })
unfolding record_answer find_shift
record_answer-shift now i user r u s st f =
    find_row-update_row (λ o. o.id == i) _ st.open_shifts f
      (find_row-true (λ o. o.id == i) st.open_shifts f)

-- Declining never fails for a connected worker, and then the shift is filled or open by the number of
-- its active assignments, whatever its status was: also if it was cancelled, completed or in progress.
pub respond-decline_reopens :
    (now i user : ℕ) (st : Store) (u : Worker) (s : OpenShift)
    → find_row (λ w. w.user == user) st.workers ≡ some u
    → find_shift i st.open_shifts ≡ some s
    → is_connected s.venue u.id st ≡ true
    → (st' : Store) × (respond now i user decline st ≡ ok st')
      × (find_shift i st'.open_shifts
          ≡ some (record s {
            status = if leb s.headcount (active_count i st') then filled else opened;
          }))
respond-decline_reopens now i user st u s e f c = (
  record_answer now i user decline u s st,
  answers,
  record_answer-shift now i user decline u s st f,
)
  where
    answers : respond now i user decline st ≡ ok (record_answer now i user decline u s st)
    answers = unfold respond methods get_worker get_shift in rw (e, f, c)

abbrev pub Cancels : ℕ → ℕ → Store → Store → Type 0
Cancels now i st st' =
    (s : OpenShift) × (find_shift i st.open_shifts ≡ some s)
    × (is_over s.status ≡ false)
    × (find_row (λ a. a.open_shift == i && is_working a.status) st.assignments ≡ none)
    × (find_shift i st'.open_shifts
        ≡ some (record s { status = cancelled; cancelled_at = some now }))
    × All (λ a. (a.open_shift == i && is_pending a.status) ≡ false) st'.assignments

none_of : (o : Option Assignment) → not (is_some o) ≡ true → o ≡ none
none_of none h = refl
none_of (some a) h = cc

cancel_shift-Cancels :
    (now i actor : ℕ) (why : Option Text) (st : Store)
    → OnOk (Cancels now i st) (cancel_shift now i actor why st)
unfolding cancel_shift get_shift find_shift
cancel_shift-Cancels now i actor why st = OnOk-or_throw _ _ _ λ s e. OnOk-require _ _ _ λ over.
    OnOk-require _ _ _ λ idle. returns (
      s,
      e,
      ground arith,
      none_of _ idle,
      find_row-update_row (λ o. o.id == i) _ st.open_shifts e
          (find_row-true (λ o. o.id == i) st.open_shifts e),
      None-update_rows (λ a. a.open_shift == i && is_pending a.status) (withdraw _) st.assignments
          (λ a. ground arith),
    )

-- A shift is cancelled only if it was neither cancelled nor completed and nobody had clocked in or out;
-- then it is cancelled at that instant, and none of its assignments is invited or accepted any more.
pub cancel_shift_lem :
    (now i actor : ℕ) (why : Option Text) (st : Store) {st' : Store}
    → cancel_shift now i actor why st ≡ ok st'
    → Cancels now i st st'
cancel_shift_lem now i actor why st = OnOk-ok (cancel_shift-Cancels now i actor why st)
