-- ===== src/Staffing/Headcount.antt =====
-- No method of `StaffingService` (apps/api/src/staffing/staffing.service.ts) lets the active
-- assignments of a shift exceed its headcount.
use serveproof.Prelude.{
  ℕ, ◌+◌, ◌≤◌, ◌≡◌, inl, inr, refl, true, ◌&&◌, Option, none, some, List, [], ◌∷◌, ◌++◌, Text, ◌==◌,
  is_some, All-mono, Bool-cases, arith,
}
use serveproof.Prelude.Http.{
  after, OnOk, OnOk-bind, OnOk-or_throw, OnOk-require, OnOk-after, returns, throws,
}
use serveproof.Prelude.Tables.{
  update_rows, count_rows, count_rows-update_rows, All-update_rows, All-append,
}
use serveproof.Staffing.Types.{OpenShift, Assignment, Store, Runtime}
use serveproof.Staffing.Queries.{
  is_pending, is_unresolved, is_clocked_out, is_approved, find_shift, find_assignment, get_shift,
  get_worker,
}
use serveproof.Staffing.Shifts.{
  ShiftInput, draft_shift, create_shift, publish_shift, withdraw, cancel_shift, invite,
}
use serveproof.Staffing.Assignments.{
  Response, record_answer, active_in, active_count, respond, clock_in, clock_out, cancel_assignment,
  mark_no_show,
}
use serveproof.Staffing.Approval.{attest_shift, complete_shift, record_approval, approve_assignment}
use serveproof.Staffing.Capacity.{
  capacity, capacity_found, Fits-mono, Fits-append, active_count_fresh, Within,
}
use serveproof.Staffing.Places.{
  set_shift-Within, set_assignment-Within, audit-Within, get_assignment-Found,
  worker_assignment-Found, reopen-Within, save_inactive-Within, found_fresh, found_id,
  save_answer-Within,
}
use serveproof.Staffing.Approval.{check_instants}
use serveproof.Staffing.Calls.{
  Call, create, publish, cancel, invite_worker, answer, begin, finish, withdraw_from, approve, miss,
  perform, run,
}

create_shift-Within :
    (venue actor : ℕ) (input : ShiftInput) (st : Store)
    → Within st
    → OnOk Within (create_shift venue actor input st)
unfolding create_shift active_count
create_shift-Within venue actor input st w =
    OnOk-require _ _ _ λ _. OnOk-require _ _ _ λ _. returns (audit-Within _ _ _ _ _ created_Within)
  where
    new : OpenShift
    new = draft_shift st.next_id venue actor input

    created_Within :
        Within (record st { open_shifts = st.open_shifts ++ (new ∷ []); next_id = st.next_id + 1 })
    created_Within = record {
      fits = λ i.
          Fits-append i (active_count i st) st.open_shifts new
            (λ e. active_count_fresh i st.assignments (rw (← e) w.fresh_slots)) (w.fits i);
      fresh_shifts =
          All-append _ st.open_shifts (new ∷ [])
            (All-mono st.open_shifts (λ s l. omega arith) w.fresh_shifts) (omega arith, tt);
      fresh_slots = All-mono st.assignments (λ a l. omega arith) w.fresh_slots;
    }

publish_shift-Within :
    (now i actor : ℕ) (st : Store) → Within st → OnOk Within (publish_shift now i actor st)
unfolding publish_shift get_shift
publish_shift-Within now i actor st w = OnOk-or_throw _ _ _ λ s _.
    OnOk-require _ _ _
      λ _. returns (audit-Within _ _ _ _ _ (set_shift-Within i _ (λ r. (refl, refl)) w))

cancel_shift-Within :
    (now i actor : ℕ) (why : Option Text) (st : Store)
    → Within st
    → OnOk Within (cancel_shift now i actor why st)
unfolding cancel_shift get_shift active_count
cancel_shift-Within now i actor why st w = OnOk-or_throw _ _ _ λ s _. OnOk-require _ _ _ λ _.
    OnOk-require _ _ _ λ _.
      returns
        (audit-Within _ _ _ _ _ (withdrawn_Within _ (set_shift-Within i _ (λ r. (refl, refl)) w)))
  where
    withdrawn_Within :
        {st' : Store} (t : Text)
        → Within st'
        → Within (record st' {
          assignments =
              update_rows
                (λ a. a.open_shift == i && is_pending a.status)
                (withdraw t)
                st'.assignments;
        })
    withdrawn_Within {st'} t v = record {
      fits = λ j.
          Fits-mono (capacity j st'.open_shifts)
            (count_rows-update_rows (active_in j) _ (withdraw t) st'.assignments
              (λ x q h. ground arith))
            (v.fits j);
      fresh_shifts = v.fresh_shifts;
      fresh_slots = All-update_rows _ _ (withdraw t) st'.assignments (λ x l. l) v.fresh_slots;
    }

invite-Within :
    (i worker actor : ℕ) (st : Store) → Within st → OnOk Within (invite i worker actor st)
unfolding invite get_shift
invite-Within i worker actor st w = OnOk-or_throw _ _ _ λ s e. OnOk-require _ _ _ λ _.
    OnOk-require _ _ _ λ _. OnOk-require _ _ _ λ _. returns (
      audit-Within _ _ _ _ _
        (save_inactive-Within i worker _ _ (λ x. (refl, refl)) (found_fresh i w e) refl w))

respond-Within :
    (now i user : ℕ) (r : Response) (st : Store) → Within st → OnOk Within (respond now i user r st)
unfolding respond record_answer get_shift get_worker
respond-Within now i user r st w = OnOk-or_throw _ _ _ λ u _. OnOk-or_throw _ _ _ λ s e.
    OnOk-require _ _ _ λ _. OnOk-require _ _ _ λ _. OnOk-require _ _ _ λ free. returns (
      audit-Within _ _ _ _ _
        (set_shift-Within i _ (λ o. (refl, refl)) (save_answer-Within now i u.id r w e free)))

clock_in-Within : (now i user : ℕ) (st : Store) → Within st → OnOk Within (clock_in now i user st)
unfolding clock_in
clock_in-Within now i user st w = OnOk-bind _ _ (worker_assignment-Found i user st) λ (a, s) (e, f).
    OnOk-require _ _ _ λ h. returns (
      audit-Within _ _ _ _ _ (
        set_shift-Within a.open_shift _ (λ o. (refl, refl))
          (set_assignment-Within i _ e (λ x. refl) (λ _. ground arith) w)))

clock_out-Within : (now i user : ℕ) (st : Store) → Within st → OnOk Within (clock_out now i user st)
unfolding clock_out
clock_out-Within now i user st w =
    OnOk-bind _ _ (worker_assignment-Found i user st) λ (a, s) (e, f). OnOk-require _ _ _ λ h.
      returns
        (audit-Within _ _ _ _ _ (set_assignment-Within i _ e (λ x. refl) (λ _. ground arith) w))

cancel_assignment-Within :
    (now i user : ℕ) (why : Option Text) (st : Store)
    → Within st
    → OnOk Within (cancel_assignment now i user why st)
unfolding cancel_assignment
cancel_assignment-Within now i user why st w =
    OnOk-bind _ _ (worker_assignment-Found i user st) λ (a, s) (e, f). OnOk-require _ _ _ λ h.
      returns (
        audit-Within _ _ _ _ _
          (reopen-Within now s (set_assignment-Within i _ e (λ x. refl) (λ k. cc) w)))

mark_no_show-Within :
    (now i actor : ℕ) (st : Store) → Within st → OnOk Within (mark_no_show now i actor st)
unfolding mark_no_show
mark_no_show-Within now i actor st w = OnOk-bind _ _ (get_assignment-Found i st) λ (a, s) (e, f).
    OnOk-require _ _ _ λ h. returns (
      audit-Within _ _ _ _ _
        (reopen-Within now s (set_assignment-Within i _ e (λ x. refl) (λ k. cc) w)))

complete_shift-Within : (i : ℕ) {st : Store} → Within st → Within (complete_shift i st)
unfolding complete_shift
complete_shift-Within i {st} w =
    elim (Bool-cases
      (count_rows (λ a. a.open_shift == i && is_unresolved a.status) st.assignments == 0)) [
        | inl e ↦ rw e (set_shift-Within i _ (λ o. (refl, refl)) w)
        | inr e ↦ rw e w
      ]

attest_shift-Within :
    (rt : Runtime) (a : Assignment) (s : OpenShift) (x y : ℕ) {st : Store}
    → Within st
    → Within (attest_shift rt a s x y st)
unfolding attest_shift active_count
attest_shift-Within rt a s x y {st} w = record {
  fits = w.fits;
  fresh_shifts = All-mono st.open_shifts (λ o l. omega arith) w.fresh_shifts;
  fresh_slots = All-mono st.assignments (λ o l. omega arith) w.fresh_slots;
}

record_approval-Within :
    (rt : Runtime) (now actor : ℕ) (a : Assignment) (s : OpenShift) (x y : ℕ) (st : Store)
    → find_assignment a.id st.assignments ≡ some a
    → is_clocked_out a.status ≡ true
    → Within st
    → Within (record_approval rt now actor a s x y st)
unfolding record_approval
record_approval-Within rt now actor a s x y st e h w = audit-Within _ _ _ _ _ (
    complete_shift-Within a.open_shift (
      set_assignment-Within a.id _ (unfold attest_shift in e) (λ r. refl) (λ _. ground arith)
        (attest_shift-Within rt a s x y w)))

check_instants-Within :
    (rt : Runtime) (now actor : ℕ) (a : Assignment) (s : OpenShift) (from to : Option ℕ)
    (st : Store)
    → find_assignment a.id st.assignments ≡ some a
    → is_clocked_out a.status ≡ true
    → Within st
    → OnOk Within (check_instants rt now actor a s from to st)
check_instants-Within rt now actor a s (some x) (some y) st e h w =
    returns (record_approval-Within rt now actor a s x y st e h w)
check_instants-Within rt now actor a s (some x) none st e h w = throws
check_instants-Within rt now actor a s none _ st e h w = throws

approve_assignment-Within :
    (rt : Runtime) (now i actor : ℕ) (st : Store)
    → Within st
    → OnOk Within (approve_assignment rt now i actor st)
unfolding approve_assignment
approve_assignment-Within rt now i actor st w =
    OnOk-bind _ _ (get_assignment-Found i st) λ (a, s) (e, f).
      elim (Bool-cases (is_approved a.status && is_some a.shift_evidence)) [
        | inl again ↦ rw again (returns w)
        | inr first ↦ elim (Bool-cases (is_clocked_out a.status)) [
          | inl h ↦
              rw (first, h)
                (check_instants-Within rt now actor a s a.check_in_at a.check_out_at st
                  (found_id i st.assignments e) h w)
          | inr h ↦ rw (first, h) throws
        ]
      ]

-- Each call keeps the invariant.
perform-Within :
    (rt : Runtime) (now : ℕ) (c : Call) (st : Store) → Within st → OnOk Within (perform rt now c st)
perform-Within rt now c st w = performed c
  where
    performed : (d : Call) → OnOk Within (perform rt now d st)
    performed =
        unfold perform in
        elim [
          | create venue actor input ↦ create_shift-Within venue actor input st w
          | publish i actor ↦ publish_shift-Within now i actor st w
          | cancel i actor why ↦ cancel_shift-Within now i actor why st w
          | invite_worker i worker actor ↦ invite-Within i worker actor st w
          | answer i user r ↦ respond-Within now i user r st w
          | begin i user ↦ clock_in-Within now i user st w
          | finish i user ↦ clock_out-Within now i user st w
          | withdraw_from i user why ↦ cancel_assignment-Within now i user why st w
          | approve i actor ↦ approve_assignment-Within rt now i actor st w
          | miss i actor ↦ mark_no_show-Within now i actor st w
        ]

run-Within : (rt : Runtime) (cs : List (ℕ × Call)) (st : Store) → Within st → Within (run rt cs st)
unfolding run
run-Within rt [] st w = w
run-Within rt ((now, c) ∷ cs) st w =
    run-Within rt cs (after st (perform rt now c st))
      (OnOk-after st w (perform-Within rt now c st w))

-- From a store in which no shift has more active assignments than its headcount and the ids are fresh,
-- no history of calls, at whatever instants, leads to a shift with more active assignments than its
-- headcount.
pub run-active_count-le :
    (rt : Runtime) (cs : List (ℕ × Call)) (st : Store) (i : ℕ) {s : OpenShift}
    → Within st
    → find_shift i (run rt cs st).open_shifts ≡ some s
    → active_count i (run rt cs st) ≤ s.headcount
run-active_count-le rt cs st i w e =
    rw (capacity_found i (run rt cs st).open_shifts e) at ((run-Within rt cs st w).fits i)
