-- ===== src/Staffing/Places.antt =====
-- How the writes of `StaffingService` (apps/api/src/staffing/staffing.service.ts) change the active
-- assignments of a shift.
use mathlib.Core.Path.{subst}
use mathlib.Core.Logic.{◌≢◌}
use native.Mathlib.Decide.{ℕ_discrete}
use serveproof.Prelude.{
  ℕ, ◌+◌, ◌≤◌, ◌<◌, ◌≡◌, inl, inr, refl, true, false, not, ◌&&◌, ◌||◌, none, some, List, Text, ltb,
  ◌==◌, All-mono, Bool-cases, Option-cases, arith,
}
use serveproof.Prelude.Http.{OnOk, OnOk-bind, OnOk-or_throw, OnOk-require, returns}
use serveproof.Prelude.Tables.{
  find_row, count_rows-update_row_found, count_rows-upsert_row, count_rows-upsert_row_suc,
  count_rows-upsert_row_found, All-update_row, All-upsert_row, find_row-All, find_row-true,
}
use serveproof.Staffing.Types.{invited, OpenShift, Assignment, AuditDetail, Store}
use serveproof.Staffing.Queries.{
  is_active, is_filled, find_shift, find_assignment, is_slot, set_shift, set_assignment, audit,
  get_worker, get_assignment, worker_assignment, blank_assignment, has_active, save_slot,
}
use serveproof.Staffing.Assignments.{
  Response, accept, decline, is_accept, answered, active_in, active_count, reopen,
}
use serveproof.Staffing.Capacity.{
  capacity, capacity_found, capacity-update_row, Fits, Fits-mono, Within,
}

pub set_shift-Within :
    (i : ℕ) (f : OpenShift → OpenShift) {st : Store}
    → ((s : OpenShift) → ((f s).id ≡ s.id) × ((f s).headcount ≡ s.headcount))
    → Within st
    → Within (set_shift i f st)
unfolding set_shift active_count
set_shift-Within i f {st} h w = record {
  fits = λ j. rw (capacity-update_row j i f st.open_shifts h) (w.fits j);
  fresh_shifts = All-update_row _ _ f st.open_shifts (λ s l. omega (arith, (h s).0)) w.fresh_shifts;
  fresh_slots = w.fresh_slots;
}

-- The row found under the id keeps its shift, and becomes active only if it was.
pub set_assignment-Within :
    (i : ℕ) (f : Assignment → Assignment) {st : Store} {a : Assignment}
    → find_assignment i st.assignments ≡ some a
    → ((x : Assignment) → (f x).open_shift ≡ x.open_shift)
    → (is_active (f a).status ≡ true → is_active a.status ≡ true)
    → Within st
    → Within (set_assignment i f st)
unfolding set_assignment active_count find_assignment
set_assignment-Within i f {st} {a} e h k w = record {
  fits = λ j.
      Fits-mono (capacity j st.open_shifts)
        (count_rows-update_row_found (active_in j) (λ x. x.id == i) f st.assignments e
          (ground (arith, h a)))
        (w.fits j);
  fresh_shifts = w.fresh_shifts;
  fresh_slots = All-update_row _ _ f st.assignments (λ x l. omega (arith, h x)) w.fresh_slots;
}

pub audit-Within :
    (venue actor : ℕ) (action : Text) (entity : ℕ) (d : AuditDetail) {st : Store}
    → Within st
    → Within (audit venue actor action entity d st)
unfolding audit active_count
audit-Within venue actor action entity d w = record {
  fits = w.fits;
  fresh_shifts = w.fresh_shifts;
  fresh_slots = w.fresh_slots;
}

-- The row that a method on an assignment has found, and its shift.
abbrev pub Found : ℕ → Store → Assignment × OpenShift → Type 0
Found i st (a, s) =
    (find_assignment i st.assignments ≡ some a) × (find_shift a.open_shift st.open_shifts ≡ some s)

pub get_assignment-Found : (i : ℕ) (st : Store) → OnOk (Found i st) (get_assignment i st)
unfolding get_assignment
get_assignment-Found i st = OnOk-or_throw _ _ _ λ a e. OnOk-or_throw _ _ _ λ s f. returns (e, f)

pub worker_assignment-Found :
    (i user : ℕ) (st : Store) → OnOk (Found i st) (worker_assignment i user st)
unfolding worker_assignment get_worker
worker_assignment-Found i user st =
    OnOk-or_throw _ _ _
      λ u _. OnOk-bind _ _ (get_assignment-Found i st) λ (a, s) f. OnOk-require _ _ _ λ _. returns f

pub reopen-Within : (now : ℕ) (s : OpenShift) {st : Store} → Within st → Within (reopen now s st)
unfolding reopen
reopen-Within now s w = elim (Bool-cases (is_filled s.status && ltb now s.starts_at)) [
  | inl e ↦ rw e (set_shift-Within s.id _ (λ o. (refl, refl)) w)
  | inr e ↦ rw e w
]

-- The saved row of a slot: its shift stays, and the store keeps its invariant where no shift has more
-- active assignments than it may.
save_slot-Within :
    (shift worker : ℕ) (f : Assignment → Assignment) (new : Assignment) {st : Store}
    → ((x : Assignment) → (f x).open_shift ≡ x.open_shift)
    → new.open_shift < st.next_id
    → Within st
    → ((j : ℕ)
        → Fits (capacity j st.open_shifts) (active_count j (save_slot shift worker f new st)))
    → Within (save_slot shift worker f new st)
unfolding save_slot active_count
save_slot-Within shift worker f new {st} h n w fits = record {
  fits = fits;
  fresh_shifts = All-mono st.open_shifts (λ s l. omega arith) w.fresh_shifts;
  fresh_slots =
      All-upsert_row _ _ f new st.assignments (λ x l. omega (arith, h x)) (omega arith)
        (All-mono st.assignments (λ a l. omega arith) w.fresh_slots);
}

pub found_fresh :
    (i : ℕ) {st : Store} {s : OpenShift}
    → Within st
    → find_shift i st.open_shifts ≡ some s
    → i < st.next_id
unfolding find_shift
found_fresh i {st} {s} w e = ground (
  arith,
  find_row-All (λ o. o.id < st.next_id) (λ o. o.id == i) st.open_shifts w.fresh_shifts e,
  find_row-true (λ o. o.id == i) st.open_shifts e,
)

-- A row that is saved as inactive adds to no count.
inactive_fewer :
    (shift worker j : ℕ) (f : Assignment → Assignment) (new : Assignment) (st : Store)
    → ((x : Assignment) → is_active (f x).status ≡ false)
    → is_active new.status ≡ false
    → active_count j (save_slot shift worker f new st) ≤ active_count j st
unfolding save_slot active_count
inactive_fewer shift worker j f new st h n =
    count_rows-upsert_row (active_in j) (is_slot shift worker) f new st.assignments
      (λ x _ k. ground (arith, h x)) (ground arith)

pub save_inactive-Within :
    (shift worker : ℕ) (f : Assignment → Assignment) (new : Assignment) {st : Store}
    → ((x : Assignment) → ((f x).open_shift ≡ x.open_shift) × (is_active (f x).status ≡ false))
    → new.open_shift < st.next_id
    → is_active new.status ≡ false
    → Within st
    → Within (save_slot shift worker f new st)
save_inactive-Within shift worker f new {st} h n k w =
    save_slot-Within shift worker f new (λ x. (h x).0) n w
      λ j.
        Fits-mono (capacity j st.open_shifts)
          (inactive_fewer shift worker j f new st (λ x. (h x).1) k) (w.fits j)

-- Another shift's count does not change.
accept_elsewhere :
    (now i worker j : ℕ) (new : Assignment) (st : Store)
    → i ≢ j
    → new.open_shift ≡ i
    → active_count j (save_slot i worker (answered now accept) new st) ≤ active_count j st
unfolding save_slot active_count
accept_elsewhere now i worker j new st h e =
    count_rows-upsert_row (active_in j) (is_slot i worker) (answered now accept) new st.assignments
      (λ x q k. ground arith) (ground arith)

-- At most one more place is taken, and none where the worker held one.
accept_suc :
    (now i worker : ℕ) (new : Assignment) (st : Store)
    → active_count i (save_slot i worker (answered now accept) new st) ≤ active_count i st + 1
unfolding save_slot active_count
accept_suc now i worker new st =
    count_rows-upsert_row_suc (active_in i) (is_slot i worker) (answered now accept) new
      st.assignments

accept_again :
    (now i worker : ℕ) (new : Assignment) (st : Store)
    → has_active (find_row (is_slot i worker) st.assignments) ≡ true
    → active_count i (save_slot i worker (answered now accept) new st) ≤ active_count i st
unfolding save_slot active_count
accept_again now i worker new st h =
    elim (Option-cases (find_row (is_slot i worker) st.assignments)) [
      | inl e ↦ absurd (missing e)
      | inr (a, e) ↦
          count_rows-upsert_row_found (active_in i) (is_slot i worker) (answered now accept) new
            st.assignments e (active a e)
    ]
  where
    missing : find_row (is_slot i worker) st.assignments ≡ none → ⊥
    missing e = cc (rw e at h)

    active :
        (a : Assignment)
        → find_row (is_slot i worker) st.assignments ≡ some a
        → active_in i a ≡ true
    active a e = ground (arith, find_row-true (is_slot i worker) st.assignments e, (rw e at h))

-- A worker who accepts takes a place that is free, or keeps the one that is taken.
accept_Fits :
    (now i worker headcount j : ℕ) (new : Assignment) (st : Store)
    → Within st
    → new.open_shift ≡ i
    → capacity i st.open_shifts ≡ some headcount
    → (has_active (find_row (is_slot i worker) st.assignments) || ltb (active_count i st) headcount)
      ≡ true
    → Fits
        (capacity j st.open_shifts)
        (active_count j (save_slot i worker (answered now accept) new st))
accept_Fits now i worker headcount j new st w e cap free = elim (ℕ_discrete i j) [
  | no other ↦
      Fits-mono (capacity j st.open_shifts) (accept_elsewhere now i worker j new st other e)
        (w.fits j)
  | yes here ↦
      subst (λ k. Fits (capacity k st.open_shifts) (active_count k saved)) here (rw cap at_most)
]
  where
    saved : Store
    saved = save_slot i worker (answered now accept) new st

    kept : active_count i st ≤ headcount
    kept = rw cap at (w.fits i)

    at_most : active_count i saved ≤ headcount
    at_most = elim (Bool-cases (has_active (find_row (is_slot i worker) st.assignments))) [
      | inl held ↦ omega (arith, kept, accept_again now i worker new st held)
      | inr free' ↦ ground (arith, accept_suc now i worker new st)
    ]

pub save_answer-Within :
    (now i worker : ℕ) (r : Response) {st : Store} {s : OpenShift}
    → Within st
    → find_shift i st.open_shifts ≡ some s
    → (not (is_accept r)
        || has_active (find_row (is_slot i worker) st.assignments)
        || ltb (active_count i st) s.headcount)
      ≡ true
    → Within (
        save_slot i worker
          (answered now r)
          (answered now r (blank_assignment st.next_id i worker invited))
          st)
save_answer-Within now i worker accept {st} {s} w e free =
    save_slot-Within i worker (answered now accept) _ (λ x. refl) (found_fresh i w e) w
      λ j.
        accept_Fits now i worker s.headcount j _ st w refl (capacity_found i st.open_shifts e) free
save_answer-Within now i worker decline w e free =
    save_inactive-Within i worker (answered now decline) _ (λ x. (refl, refl)) (found_fresh i w e)
      refl w

pub found_id :
    (i : ℕ) (as' : List Assignment) {a : Assignment}
    → find_assignment i as' ≡ some a
    → find_assignment a.id as' ≡ some a
unfolding find_assignment
found_id i as' {a} e = ground (arith, find_row-true (λ x. x.id == i) as' e)

pub found_same :
    (i : ℕ) (as' : List Assignment) {a : Assignment} → find_assignment i as' ≡ some a → a.id ≡ i
unfolding find_assignment
found_same i as' {a} e = ground (arith, find_row-true (λ x. x.id == i) as' e)
