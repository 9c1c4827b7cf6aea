-- ===== src/Staffing/Capacity.antt =====
-- The headcount of a shift (apps/api/src/staffing/staffing.service.ts): rows of the two tables.
use serveproof.Prelude.{
  ℕ, ◌≤◌, ◌<◌, ◌≡◌, inl, inr, refl, Option, none, some, List, [], ◌∷◌, ◌++◌, ◌==◌, if◌then◌else◌,
  All, Bool-cases, arith,
}
use serveproof.Prelude.Tables.{update_row, count_rows}
use serveproof.Staffing.Types.{OpenShift, Assignment, Store}
use serveproof.Staffing.Queries.{find_shift}
use serveproof.Staffing.Assignments.{active_in, active_count}

-- The headcount of the shift with this id, if there is one.
unfoldable pub capacity : ℕ → List OpenShift → Option ℕ
capacity i [] = none
capacity i (s ∷ ss) = if s.id == i then some s.headcount else capacity i ss

pub capacity_found :
    (i : ℕ) (ss : List OpenShift) {s : OpenShift}
    → find_shift i ss ≡ some s
    → capacity i ss ≡ some s.headcount
unfolding capacity find_shift
capacity_found i [] h = cc
capacity_found i (x ∷ ss) {s} h = ground (arith, capacity_found i ss {s = s})

pub capacity-update_row :
    (i j : ℕ) (f : OpenShift → OpenShift) (ss : List OpenShift)
    → ((s : OpenShift) → ((f s).id ≡ s.id) × ((f s).headcount ≡ s.headcount))
    → capacity i (update_row (λ s. s.id == j) f ss) ≡ capacity i ss
unfolding capacity update_row
capacity-update_row i j f [] h = refl
capacity-update_row i j f (s ∷ ss) h = ground (arith, h s, capacity-update_row i j f ss h)

-- The active assignments of a shift, if there is such a shift, are within its headcount.
abbrev pub Fits : Option ℕ → ℕ → Type 0
Fits none n = Unit {0}
Fits (some c) n = n ≤ c

pub Fits-mono : (o : Option ℕ) {m n : ℕ} → m ≤ n → Fits o n → Fits o m
Fits-mono none h f = tt
Fits-mono (some c) h f = omega arith

-- A shift with a new id has no assignment yet.
pub Fits-append :
    (i n : ℕ) (ss : List OpenShift) (new : OpenShift)
    → (new.id ≡ i → n ≡ 0)
    → Fits (capacity i ss) n
    → Fits (capacity i (ss ++ new ∷ [])) n
unfolding capacity
Fits-append i n [] new h f = elim (Bool-cases (new.id == i)) [
  | inl e ↦ rw e (omega (arith, h (ground arith)))
  | inr e ↦ rw e tt
]
Fits-append i n (s ∷ ss) new h f = elim (Bool-cases (s.id == i)) [
  | inl e ↦ rw e (rw e at f)
  | inr e ↦ rw e (Fits-append i n ss new h (rw e at f))
]

pub active_count_fresh :
    (i : ℕ) (as' : List Assignment)
    → All (λ a. a.open_shift < i) as'
    → count_rows (active_in i) as' ≡ 0
unfolding count_rows
active_count_fresh i [] h = refl
active_count_fresh i (a ∷ as') h = ground (arith, active_count_fresh i as' h.1)

pub record Within (st : Store) : Type 0 where
  pub fits : (i : ℕ) → Fits (capacity i st.open_shifts) (active_count i st)
  pub fresh_shifts : All (λ s. s.id < st.next_id) st.open_shifts
  pub fresh_slots : All (λ a. a.open_shift < st.next_id) st.assignments

-- Where the shifts keep their ids and headcounts, and no shift gets more active assignments.
pub record Shrinks (st st' : Store) : Type 0 where
  pub same_capacity : (i : ℕ) → capacity i st'.open_shifts ≡ capacity i st.open_shifts
  pub fewer : (i : ℕ) → active_count i st' ≤ active_count i st
  pub shifts_kept : All (λ s. s.id < st'.next_id) st'.open_shifts
  pub slots_kept : All (λ a. a.open_shift < st'.next_id) st'.assignments

pub Shrinks-Within : {st st' : Store} → Within st → Shrinks st st' → Within st'
Shrinks-Within {st} {st'} w s = record {
  fits = λ i. rw (s.same_capacity i) (Fits-mono (capacity i st.open_shifts) (s.fewer i) (w.fits i));
  fresh_shifts = s.shifts_kept;
  fresh_slots = s.slots_kept;
}
