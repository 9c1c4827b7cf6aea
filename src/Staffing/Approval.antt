-- ===== src/Staffing/Approval.antt =====
-- `approveAssignment` (apps/api/src/staffing/staffing.service.ts).
use serveproof.Prelude.{
  ℕ, ◌+◌, ◌-◌, ◌/◌, Bool, ◌&&◌, Option, none, some, [], text, ◌==◌, if◌then◌else◌, is_some,
}
use Prim.Native.Nat.{max}
use serveproof.Prelude.Http.{Result, ok, err, conflict, ◌>>=◌}
use serveproof.Prelude.Tables.{find_row, upsert_row, count_rows}
use serveproof.Staffing.Types.{
  completed, approved, OpenShift, Assignment, Evidence, evidence, Store, Runtime,
}
use serveproof.Staffing.Queries.{
  is_unresolved, is_clocked_out, is_approved, set_shift, set_assignment, audit, get_assignment,
}

-- `Math.max(1, Math.round((checkOutAt - checkInAt) / 60_000))`. An instant before `check_in` counts as
-- `check_in`: a negative quotient rounds to at most 0, and the result is 1 then too.
unfoldable pub worked_minutes : ℕ → ℕ → ℕ
worked_minutes check_in check_out = max 1 ((check_out - check_in + 30000) / 60000)

abbrev pub evidence_id : Option Evidence → ℕ → ℕ
evidence_id none i = i
evidence_id (some e) i = e.id

-- The upsert of the evidence row under the key (venue, provider, assignment).
abbrev pub is_evidence_of : ℕ → ℕ → Evidence → Bool
is_evidence_of venue i e = e.venue == venue && e.external_shift == i

abbrev pub attest : Runtime → Assignment → OpenShift → ℕ → ℕ → Evidence → Evidence
attest rt a s check_in check_out e = record e {
  mapped_worker = a.worker;
  role = s.role;
  clock_in = check_in;
  clock_out = check_out;
  worked_minutes = worked_minutes check_in check_out;
  business_date = rt.business_date check_in s.venue;
  source_hash = rt.source_hash a.id a.worker check_in check_out s.role;
}

abbrev pub blank_evidence : ℕ → Assignment → OpenShift → Evidence
blank_evidence i a s = record {
  id = i;
  venue = s.venue;
  external_shift = a.id;
  external_worker = a.worker;
  mapped_worker = a.worker;
  role = s.role;
  clock_in = 0;
  clock_out = 0;
  worked_minutes = 0;
  business_date = [];
  source_hash = [];
}

unfoldable pub attest_shift : Runtime → Assignment → OpenShift → ℕ → ℕ → Store → Store
unfolding upsert_row
attest_shift rt a s check_in check_out st = record st {
  evidence_rows =
      upsert_row (is_evidence_of s.venue a.id) (attest rt a s check_in check_out)
        (attest rt a s check_in check_out (blank_evidence st.next_id a s)) st.evidence_rows;
  next_id = st.next_id + 1;
}

unfoldable pub complete_shift : ℕ → Store → Store
unfolding count_rows set_shift
complete_shift i st =
    if count_rows (λ a. a.open_shift == i && is_unresolved a.status) st.assignments == 0
    then set_shift i (λ o. record o { status = completed }) st
    else st

-- The method behind its checks, at the two instants that they found.
unfoldable pub record_approval : Runtime → ℕ → ℕ → Assignment → OpenShift → ℕ → ℕ → Store → Store
unfolding find_row attest_shift set_assignment complete_shift audit
record_approval rt now actor a s check_in check_out st =
    let row = evidence_id (find_row (is_evidence_of s.venue a.id) st.evidence_rows) st.next_id in
    let approve_row : Assignment → Assignment = λ r. record r {
      status = approved;
      approved_at = some now;
      approved_by = some actor;
      shift_evidence = some row;
    } in
    let st' = set_assignment a.id approve_row (attest_shift rt a s check_in check_out st) in
    audit s.venue actor (text "SHIFT_ASSIGNMENT_APPROVED") a.id
      (evidence (worked_minutes check_in check_out) (rt.business_date check_in s.venue) (some row))
      (complete_shift a.open_shift st')

-- The check of the instants: `Only a clocked-out assignment can be approved`. The test of the minutes
-- that follows it never fails, since they are at least 1.
abbrev pub check_instants :
    Runtime → ℕ → ℕ → Assignment → OpenShift → Option ℕ → Option ℕ → Store → Result Store
check_instants rt now actor a s (some x) (some y) st = ok (record_approval rt now actor a s x y st)
check_instants rt now actor a s _ _ st = err conflict

unfoldable pub approve_assignment : Runtime → ℕ → ℕ → ℕ → Store → Result Store
unfolding get_assignment record_approval
approve_assignment rt now i actor st = do
  (a, s) ← get_assignment i st
  if is_approved a.status && is_some a.shift_evidence
      then ok st
      else if is_clocked_out a.status
      then check_instants rt now actor a s a.check_in_at a.check_out_at st
      else err conflict
