-- ===== src/Staffing/Approved.antt =====
-- What `approveAssignment` (apps/api/src/staffing/staffing.service.ts) leaves behind.
use mathlib.Core.Option
use mathlib.Core.Path.{subst}
use serveproof.Prelude.{
  ℕ, ◌<◌, ◌≡◌, ◌⊎◌, inl, inr, refl, ap, ◌∙◌, true, ◌&&◌, Option, none, some, ◌==◌, ==_refl, or_else,
  is_some, Bool-cases, arith,
}
use serveproof.Prelude.Http.{ok, OnOk, OnOk-bind, OnOk-mono, OnOk-ok, returns, throws}
use serveproof.Prelude.Tables.{find_row, find_row-update_row, find_row-upsert_row}
use serveproof.Staffing.Types.{
  AssignmentStatus, clocked_out, approved, OpenShift, Assignment, Evidence, Store, Runtime,
}
use serveproof.Staffing.Queries.{
  is_clocked_out, is_approved, find_shift, find_assignment, set_shift, set_assignment, audit,
}
use serveproof.Staffing.Approval.{
  worked_minutes, evidence_id, is_evidence_of, attest, blank_evidence, attest_shift, complete_shift,
  record_approval, check_instants, approve_assignment,
}
use serveproof.Staffing.Places.{get_assignment-Found, found_id, found_same}

-- The evidence row of an assignment that is approved between two instants.
abbrev pub attested : Runtime → Assignment → OpenShift → ℕ → ℕ → Store → Evidence
attested rt a s x y st =
    or_else
      (Option.map (attest rt a s x y) (find_row (is_evidence_of s.venue a.id) st.evidence_rows))
      (attest rt a s x y (blank_evidence st.next_id a s))

abbrev pub Attested : Runtime → Assignment → OpenShift → ℕ → ℕ → ℕ → Evidence → Type 0
Attested rt a s x y row e =
    (e.mapped_worker ≡ a.worker)
    × (e.role ≡ s.role)
    × (e.worked_minutes ≡ worked_minutes x y)
    × (0 < e.worked_minutes)
    × (row ≡ e.id)

attested_lem :
    (rt : Runtime) (a : Assignment) (s : OpenShift) (x y : ℕ) (i : ℕ) (o : Option Evidence)
    → Attested rt a s x y
        (evidence_id o i)
        (or_else (Option.map (attest rt a s x y) o) (attest rt a s x y (blank_evidence i a s)))
unfolding worked_minutes
attested_lem rt a s x y i none = (refl, refl, refl, omega arith, refl)
attested_lem rt a s x y i (some e) = (refl, refl, refl, omega arith, refl)

complete_shift-rows :
    (i : ℕ) (st : Store)
    → ((complete_shift i st).assignments ≡ st.assignments)
      × ((complete_shift i st).evidence_rows ≡ st.evidence_rows)
unfolding complete_shift set_shift
complete_shift-rows i st = ground arith

-- What an approval leaves: the assignment is approved with an evidence row of its own worker, role and
-- instants, of at least one minute.
abbrev pub Approves : Runtime → ℕ → ℕ → ℕ → Store → Store → Type 0
Approves rt now i actor st st' =
    (a : Assignment) × (s : OpenShift) × (x : ℕ) × (y : ℕ) × (e : Evidence) × (find_assignment i
        st.assignments
      ≡ some a)
    × (find_shift a.open_shift st.open_shifts ≡ some s)
    × (a.status ≡ clocked_out)
    × (a.check_in_at ≡ some x)
    × (a.check_out_at ≡ some y)
    × (find_row (is_evidence_of s.venue i) st'.evidence_rows ≡ some e)
    × Attested rt a s x y e.id e
    × (find_assignment i st'.assignments
        ≡ some (record a {
          status = approved;
          approved_at = some now;
          approved_by = some actor;
          shift_evidence = some e.id;
        }))

record_approval-evidence :
    (rt : Runtime) (now actor : ℕ) (a : Assignment) (s : OpenShift) (x y : ℕ) (st : Store)
    → find_row (is_evidence_of s.venue a.id) (record_approval rt now actor a s x y st).evidence_rows
      ≡ some (attested rt a s x y st)
unfolding record_approval audit set_assignment
record_approval-evidence rt now actor a s x y st =
    rw ((complete_shift-rows a.open_shift _).1, attest_shift)
      (find_row-upsert_row (is_evidence_of s.venue a.id) (attest rt a s x y) _ st.evidence_rows
        (λ e h. h) (ground arith))

abbrev approved_row : ℕ → ℕ → ℕ → Assignment → Assignment
approved_row now actor row a = record a {
  status = approved;
  approved_at = some now;
  approved_by = some actor;
  shift_evidence = some row;
}

record_approval-assignment :
    (rt : Runtime) (now actor : ℕ) (a : Assignment) (s : OpenShift) (x y : ℕ) (st : Store)
    → find_assignment a.id st.assignments ≡ some a
    → find_assignment a.id (record_approval rt now actor a s x y st).assignments
      ≡ some (approved_row now actor (attested rt a s x y st).id a)
unfolding record_approval audit set_assignment find_assignment attest_shift
record_approval-assignment rt now actor a s x y st f = rw (complete_shift-rows a.open_shift _).0 (
    find_row-update_row (λ b. b.id == a.id) (approved_row now actor _) st.assignments f
      (==_refl a.id)
    ∙ ap (λ r. some (approved_row now actor r a))
        (attested_lem rt a s x y st.next_id
          (find_row (is_evidence_of s.venue a.id) st.evidence_rows)).4)

clocked_out_of : (t : AssignmentStatus) → is_clocked_out t ≡ true → t ≡ clocked_out
clocked_out_of clocked_out h = refl
clocked_out_of _ h = cc

check_instants-Approves :
    (rt : Runtime) (now actor : ℕ) (a : Assignment) (s : OpenShift) (from to : Option ℕ)
    (st : Store)
    → a.check_in_at ≡ from
    → a.check_out_at ≡ to
    → find_assignment a.id st.assignments ≡ some a
    → find_shift a.open_shift st.open_shifts ≡ some s
    → is_clocked_out a.status ≡ true
    → OnOk (Approves rt now a.id actor st) (check_instants rt now actor a s from to st)
check_instants-Approves rt now actor a s (some x) (some y) st p q f g h = returns (
  a,
  s,
  x,
  y,
  attested rt a s x y st,
  f,
  g,
  clocked_out_of a.status h,
  p,
  q,
  record_approval-evidence rt now actor a s x y st,
  facts,
  record_approval-assignment rt now actor a s x y st f,
)
  where
    facts : Attested rt a s x y (attested rt a s x y st).id (attested rt a s x y st)
    facts =
        let (worker, role, minutes, positive, row) =
          attested_lem rt a s x y st.next_id
            (find_row (is_evidence_of s.venue a.id) st.evidence_rows) in
        (worker, role, minutes, positive, refl)
check_instants-Approves rt now actor a s (some x) none st p q f g h = throws
check_instants-Approves rt now actor a s none _ st p q f g h = throws

-- The row was approved before, with its evidence.
abbrev pub IsApproved : ℕ → Store → Type 0
IsApproved i st =
    (a : Assignment) × (find_assignment i st.assignments ≡ some a)
    × ((is_approved a.status && is_some a.shift_evidence) ≡ true)

approve_assignment-Approves :
    (rt : Runtime) (now i actor : ℕ) (st : Store)
    → OnOk
        (λ st'. ((st' ≡ st) × IsApproved i st) ⊎ Approves rt now i actor st st')
        (approve_assignment rt now i actor st)
unfolding approve_assignment
approve_assignment-Approves rt now i actor st =
    OnOk-bind _ _ (get_assignment-Found i st) λ (a, s) (e, f).
      elim (Bool-cases (is_approved a.status && is_some a.shift_evidence)) [
        | inl again ↦ rw again (returns (inl (refl, (a, e, again))))
        | inr first ↦ elim (Bool-cases (is_clocked_out a.status)) [
          | inl h ↦
              rw (first, h)
                (OnOk-mono
                  (λ st' v.
                    inr (
                      subst (λ j. Approves rt now j actor st st') (found_same i st.assignments e)
                        v))
                  (check_instants-Approves rt now actor a s a.check_in_at a.check_out_at st refl
                    refl (found_id i st.assignments e) f h))
          | inr h ↦ rw (first, h) throws
        ]
      ]

-- An approval that returns either finds the assignment approved with its evidence and changes nothing,
-- or finds it clocked out with both instants, and leaves it approved with an evidence row of its worker,
-- role and rounded minutes (at least 1), whose id it keeps.
pub approve_assignment_lem :
    (rt : Runtime) (now i actor : ℕ) (st : Store) {st' : Store}
    → approve_assignment rt now i actor st ≡ ok st'
    → ((st' ≡ st) × IsApproved i st) ⊎ Approves rt now i actor st st'
approve_assignment_lem rt now i actor st = OnOk-ok (approve_assignment-Approves rt now i actor st)
