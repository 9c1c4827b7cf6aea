-- ===== src/Staffing/Queries.antt =====
-- The status tests and the queries of `StaffingService`
-- (apps/api/src/staffing/staffing.service.ts).
use serveproof.Prelude.{
  ℕ, ◌+◌, Bool, true, false, ◌&&◌, Option, none, some, List, [], ◌∷◌, ◌++◌, Text, trim, ◌==◌,
  is_some, bind,
}
use serveproof.Prelude.Http.{Result, ok, not_found, require, or_throw, ◌>>=◌, ◌>>◌}
use serveproof.Prelude.Tables.{find_row, update_row, upsert_row}
use serveproof.Staffing.Types.{
  OpenShiftStatus, draft, opened, filled, completed, cancelled, AssignmentStatus, invited, accepted,
  clocked_in, clocked_out, approved, OpenShift, Assignment, Worker, AuditDetail, Store,
}

-- `ACTIVE_ASSIGNMENTS`.
abbrev pub is_active : AssignmentStatus → Bool
is_active accepted = true
is_active clocked_in = true
is_active clocked_out = true
is_active approved = true
is_active _ = false

abbrev pub is_pending : AssignmentStatus → Bool
is_pending invited = true
is_pending accepted = true
is_pending _ = false

abbrev pub is_working : AssignmentStatus → Bool
is_working clocked_in = true
is_working clocked_out = true
is_working _ = false

abbrev pub is_unresolved : AssignmentStatus → Bool
is_unresolved accepted = true
is_unresolved clocked_in = true
is_unresolved clocked_out = true
is_unresolved _ = false

abbrev pub is_draft : OpenShiftStatus → Bool
is_draft draft = true
is_draft _ = false

abbrev pub is_opened : OpenShiftStatus → Bool
is_opened opened = true
is_opened _ = false

abbrev pub is_filled : OpenShiftStatus → Bool
is_filled filled = true
is_filled _ = false

abbrev pub is_over : OpenShiftStatus → Bool
is_over cancelled = true
is_over completed = true
is_over _ = false

abbrev pub is_accepted : AssignmentStatus → Bool
is_accepted accepted = true
is_accepted _ = false

abbrev pub is_clocked_in : AssignmentStatus → Bool
is_clocked_in clocked_in = true
is_clocked_in _ = false

abbrev pub is_clocked_out : AssignmentStatus → Bool
is_clocked_out clocked_out = true
is_clocked_out _ = false

abbrev pub is_approved : AssignmentStatus → Bool
is_approved approved = true
is_approved _ = false

unfoldable pub find_shift : ℕ → List OpenShift → Option OpenShift
unfolding find_row
find_shift i = find_row (λ s. s.id == i)

unfoldable pub find_assignment : ℕ → List Assignment → Option Assignment
unfolding find_row
find_assignment i = find_row (λ a. a.id == i)

-- The unique key (openShiftId, workerId).
abbrev pub is_slot : ℕ → ℕ → Assignment → Bool
is_slot shift worker a = a.open_shift == shift && a.worker == worker

unfoldable pub set_shift : ℕ → (OpenShift → OpenShift) → Store → Store
unfolding update_row
set_shift i f st = record st { open_shifts = update_row (λ s. s.id == i) f st.open_shifts }

unfoldable pub set_assignment : ℕ → (Assignment → Assignment) → Store → Store
unfolding update_row
set_assignment i f st = record st { assignments = update_row (λ a. a.id == i) f st.assignments }

unfoldable pub audit : ℕ → ℕ → Text → ℕ → AuditDetail → Store → Store
audit venue actor action entity detail st = record st {
  audit_log =
      st.audit_log
      ++ (record { venue = venue; actor = actor; action = action; entity = entity; detail = detail }
          ∷ []);
}

unfoldable pub get_shift : ℕ → Store → Result OpenShift
unfolding find_shift
get_shift i st = or_throw (find_shift i st.open_shifts) not_found

unfoldable pub get_worker : ℕ → Store → Result Worker
unfolding find_row
get_worker user st = or_throw (find_row (λ w. w.user == user) st.workers) not_found

unfoldable pub is_connected : ℕ → ℕ → Store → Bool
unfolding find_row
is_connected venue worker st =
    is_some (find_row (λ c. c.venue == venue && c.worker == worker) st.connections)

-- An assignment with the shift that its foreign key names.
unfoldable pub get_assignment : ℕ → Store → Result (Assignment × OpenShift)
unfolding find_assignment find_shift
get_assignment i st = do
  a ← or_throw (find_assignment i st.assignments) not_found
  s ← or_throw (find_shift a.open_shift st.open_shifts) not_found
  ok (a, s)

unfoldable pub worker_assignment : ℕ → ℕ → Store → Result (Assignment × OpenShift)
unfolding get_worker get_assignment
worker_assignment i user st = do
  w ← get_worker user st
  (a, s) ← get_assignment i st
  require (a.worker == w.id) not_found
  ok (a, s)

-- `x?.trim() || null`.
abbrev pub non_empty : Text → Option Text
non_empty [] = none
non_empty (c ∷ cs) = some (c ∷ cs)

abbrev pub trimmed : Option Text → Option Text
trimmed o = bind o (λ t. non_empty (trim t))

abbrev pub blank_assignment : ℕ → ℕ → ℕ → AssignmentStatus → Assignment
blank_assignment i shift worker status = record {
  id = i;
  open_shift = shift;
  worker = worker;
  status = status;
  invited_by = none;
  responded_at = none;
  check_in_at = none;
  check_out_at = none;
  approved_at = none;
  approved_by = none;
  shift_evidence = none;
  cancellation_reason = none;
}

-- The id that the upserted row has: that of the old row, or the new one.
abbrev pub slot_id : Option Assignment → ℕ → ℕ
slot_id none i = i
slot_id (some a) i = a.id

abbrev pub has_active : Option Assignment → Bool
has_active none = false
has_active (some a) = is_active a.status

unfoldable pub save_slot : ℕ → ℕ → (Assignment → Assignment) → Assignment → Store → Store
unfolding upsert_row
save_slot shift worker f new st = record st {
  assignments = upsert_row (is_slot shift worker) f new st.assignments;
  next_id = st.next_id + 1;
}
