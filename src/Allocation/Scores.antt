-- ===== src/Allocation/Scores.antt =====
-- The scores: the loop over the shifts of `computeAllocationBatch` (packages/shared/src/allocation.ts).
use serveproof.Prelude.{
  ℕ, ◌+◌, ◌*◌, Bool, true, false, not, Option, none, some, List, [], ◌∷◌, ◌++◌, Text, text, ltb,
  if◌then◌else◌, or_else,
}
use serveproof.Prelude.Int.{ℤ, pos, negsuc}
use serveproof.Allocation.Types.{
  ShiftStatus, worked, approved, ShiftInput, PolicyInput, IssueCode, unmapped_worker,
  non_positive_minutes, unknown_role, Detail, worker_detail, minutes_detail, role_detail, Issue,
  Identity,
}
use serveproof.Allocation.Maps.{map_get, map_set, includes}

-- `scoreByKey`, `identityByKey` and the issues, as the loop over the shifts fills them.
pub record Scores : Type 0 where
  pub score_by_key : List (Text × ℕ)
  pub identity_by_key : List (Text × Identity)
  pub issues : List Issue

abbrev pub counts : ShiftStatus → Bool
counts worked = true
counts approved = true
counts _ = false

abbrev pub is_positive : ℤ → Bool
is_positive (pos n) = ltb 0 n
is_positive (negsuc n) = false

abbrev pub minutes : ℤ → ℕ
minutes (pos n) = n
minutes (negsuc n) = 0

unfoldable pub shift_label : ShiftInput → Text
shift_label s = or_else s.worker_id (s.provider ++ (text ":" ++ s.external_worker_id))

-- The empty string is falsy.
abbrev key_of : Option Text → ShiftInput → Text
key_of (some (c ∷ cs)) s = text "worker:" ++ (c ∷ cs)
key_of _ s = text "held:" ++ (s.provider ++ (text ":" ++ s.external_worker_id))

unfoldable pub shift_key : ShiftInput → Text
shift_key s = key_of s.worker_id s

abbrev identity_from : Option Text → ShiftInput → Identity
identity_from (some (c ∷ cs)) s = record {
  worker_id = some (c ∷ cs);
  provider = none;
  external_worker_id = none;
}
identity_from _ s = record {
  worker_id = none;
  provider = some s.provider;
  external_worker_id = some s.external_worker_id;
}

unfoldable pub shift_identity : ShiftInput → Identity
shift_identity s = identity_from s.worker_id s

abbrev push_issue : IssueCode → Bool → Detail → Scores → Scores
push_issue c b d st = record st {
  issues = st.issues ++ (record { code = c; blocking = b; detail = d } ∷ []);
}

abbrev pub note_unmapped : Option Text → ShiftInput → Scores → Scores
note_unmapped (some w) s st = st
note_unmapped none s st =
    push_issue unmapped_worker false (worker_detail s.external_worker_id s.provider s.role) st

unfoldable pub add_score : ShiftInput → ℕ → Scores → Scores
add_score s weight st =
    let key = shift_key s in
    record st {
      score_by_key =
          map_set key (or_else (map_get key st.score_by_key) 0 + minutes s.worked_minutes * weight)
            st.score_by_key;
      identity_by_key = map_set key (shift_identity s) st.identity_by_key;
    }

abbrev pub score_weight : ShiftInput → Option ℕ → Scores → Scores
score_weight s none st = push_issue unknown_role true (role_detail (shift_label s) s.role) st
score_weight s (some weight) st = add_score s weight st

-- One round of the loop over the shifts.
unfoldable pub score_step : PolicyInput → ShiftInput → Scores → Scores
score_step policy s st =
    if not (counts s.shift_status)
    then st
    else if includes policy.excluded_roles s.role
    then st
    else let noted = note_unmapped s.worker_id s st in
      if not (is_positive s.worked_minutes)
      then push_issue non_positive_minutes true (minutes_detail (shift_label s) s.worked_minutes)
          noted
      else score_weight s (map_get s.role policy.role_weights) noted

unfoldable pub score_loop : PolicyInput → List ShiftInput → Scores → Scores
score_loop policy [] st = st
score_loop policy (s ∷ shifts) st = score_loop policy shifts (score_step policy s st)
