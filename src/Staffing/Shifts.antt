-- ===== src/Staffing/Shifts.antt =====
-- `StaffingService` (apps/api/src/staffing/staffing.service.ts): open shifts and invitations.
-- Each method takes the instant of its call and returns the store that it leaves, or the exception.
use serveproof.Prelude.{
  ℕ, ◌+◌, ◌-◌, not, ◌&&◌, Option, none, some, [], ◌∷◌, ◌++◌, Text, text, ltb, leb, ◌==◌, or_else,
  is_some,
}
use serveproof.Prelude.Http.{Result, ok, bad_request, conflict, require, ◌>>=◌, ◌>>◌}
use serveproof.Prelude.Tables.{find_row, update_rows}
use serveproof.Staffing.Types.{
  draft, opened, cancelled, invited, withdrawn, OpenShift, Assignment, no_detail, created, reason,
  invitee, Store,
}
use serveproof.Staffing.Queries.{
  is_pending, is_working, is_draft, is_opened, is_over, is_slot, set_shift, audit, get_shift,
  is_connected, trimmed, blank_assignment, slot_id, has_active, save_slot,
}

pub record ShiftInput : Type 0 where
  pub role : Text
  pub description : Option Text
  pub starts_at : ℕ
  pub ends_at : ℕ
  pub hourly_rate : ℕ
  pub expected_tip : Option ℕ
  pub headcount : Option ℕ

abbrev pub day_ms : ℕ
day_ms = 86400000

abbrev pub draft_shift : ℕ → ℕ → ℕ → ShiftInput → OpenShift
draft_shift i venue actor input = record {
  id = i;
  venue = venue;
  created_by = actor;
  role = input.role;
  description = trimmed input.description;
  starts_at = input.starts_at;
  ends_at = input.ends_at;
  hourly_rate = input.hourly_rate;
  expected_tip = or_else input.expected_tip 0;
  headcount = or_else input.headcount 1;
  status = draft;
  published_at = none;
  cancelled_at = none;
}

unfoldable pub create_shift : ℕ → ℕ → ShiftInput → Store → Result Store
unfolding audit
create_shift venue actor input st = do
  require (ltb input.starts_at input.ends_at) bad_request
  require (leb (input.ends_at - input.starts_at) day_ms) bad_request
  let s = draft_shift st.next_id venue actor input
  let st' = record st { open_shifts = st.open_shifts ++ (s ∷ []); next_id = st.next_id + 1 }
  ok (
      audit venue actor (text "OPEN_SHIFT_CREATED") s.id (created s.role s.starts_at s.headcount)
        st')

unfoldable pub publish_shift : ℕ → ℕ → ℕ → Store → Result Store
unfolding get_shift set_shift audit
publish_shift now i actor st = do
  s ← get_shift i st
  require (is_draft s.status) conflict
  let st' = set_shift i (λ r. record r { status = opened; published_at = some now }) st
  ok (audit s.venue actor (text "OPEN_SHIFT_PUBLISHED") i no_detail st')

-- `updateMany` of the pending assignments of a shift that is cancelled.
abbrev pub withdraw : Text → Assignment → Assignment
withdraw why a = record a { status = withdrawn; cancellation_reason = some why }

unfoldable pub cancel_shift : ℕ → ℕ → ℕ → Option Text → Store → Result Store
unfolding get_shift set_shift audit find_row update_rows
cancel_shift now i actor why st = do
  s ← get_shift i st
  require (not (is_over s.status)) conflict
  require (not (is_some (find_row (λ a. a.open_shift == i && is_working a.status) st.assignments)))
      conflict
  let st' = set_shift i (λ r. record r { status = cancelled; cancelled_at = some now }) st
  let st'' = record st' {
    assignments =
        update_rows (λ a. a.open_shift == i && is_pending a.status)
          (withdraw (or_else (trimmed why) (text "Shift cancelled"))) st'.assignments;
  }
  ok (audit s.venue actor (text "OPEN_SHIFT_CANCELLED") i (reason (trimmed why)) st'')

unfoldable pub invite : ℕ → ℕ → ℕ → Store → Result Store
unfolding get_shift is_connected find_row save_slot audit
invite i worker actor st = do
  s ← get_shift i st
  require (is_opened s.status) conflict
  require (is_connected s.venue worker st) bad_request
  let existing = find_row (is_slot i worker) st.assignments
  require (not (has_active existing)) conflict
  let st' =
      save_slot i worker
        (λ a. record a { status = invited; invited_by = some actor; cancellation_reason = none })
        (record (blank_assignment st.next_id i worker invited) { invited_by = some actor }) st
  ok (
      audit s.venue actor (text "SHIFT_INVITATION_SENT") (slot_id existing st.next_id)
        (invitee worker) st')
