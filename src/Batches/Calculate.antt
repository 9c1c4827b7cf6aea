-- ===== src/Batches/Calculate.antt =====
-- `calculate` (apps/api/src/allocations/allocations.service.ts) and `createVersion`
-- (apps/api/src/policies/policies.service.ts).
use serveproof.Prelude.{
  ℕ, zero, suc, ◌+◌, Bool, true, false, not, ◌&&◌, ◌||◌, Option, none, some, List, [], ◌∷◌, ◌++◌,
  map, Text, text_eq, ltb, ◌==◌, if◌then◌else◌, is_some, length,
}
use serveproof.Prelude.Sort.{sort_by}
use serveproof.Prelude.Http.{
  Result, ok, not_found, bad_request, conflict, require, or_throw, ◌>>=◌, ◌>>◌,
}
use serveproof.Prelude.Tables.{find_row, filter_rows, update_rows, upsert_row}
use serveproof.Platform.{Platform, text_gt}
use serveproof.Allocation.Maps.{map_get}
use serveproof.Allocation.Types as Engine
use serveproof.Allocation.Types.{Issue}
use serveproof.Allocation.Shares.{compute_allocation_batch}
use serveproof.Settlement.Types.{Rail, BatchStatus, draft, calculated, review_required, unpaid}
use serveproof.Batches.Types.{TipRow, ShiftRow, Terms, Policy, Batch, Allocation, Store, Hashes}
use serveproof.Batches.Plan.{plan_rails}

-- The ACTIVE policy of the highest version.
abbrev pub later : Policy → Option Policy → Option Policy
later p none = some p
later p (some q) = if ltb p.version q.version then some q else some p

unfoldable pub latest : List Policy → Option Policy
latest [] = none
latest (p ∷ ps) = later p (latest ps)

unfoldable pub active_policy : ℕ → Store → Option Policy
unfolding latest filter_rows
active_policy venue st = latest (filter_rows (λ p. p.venue == venue && p.is_active) st.policies)

-- `input.policyVersion ? ... : ...`, where 0 counts as missing.
abbrev pub choose_policy : ℕ → Option ℕ → Store → Option Policy
choose_policy venue none st = active_policy venue st
choose_policy venue (some zero) st = active_policy venue st
choose_policy venue (some (suc v)) st =
    find_row (λ p. p.venue == venue && p.version == suc v) st.policies

abbrev pub is_batch : ℕ → Text → ℕ → Batch → Bool
is_batch venue date version b =
    b.venue == venue && text_eq b.business_date date && b.policy_version == version

-- DRAFT, CALCULATED or REVIEW_REQUIRED.
abbrev pub is_open : BatchStatus → Bool
is_open draft = true
is_open calculated = true
is_open review_required = true
is_open _ = false

abbrev pub may_recalculate : Option Batch → Bool
may_recalculate none = true
may_recalculate (some b) = is_open b.status

unfoldable pub has_blocking : List Issue → Bool
has_blocking [] = false
has_blocking (i ∷ is') = i.blocking || has_blocking is'

abbrev pub batch_status : List Issue → BatchStatus
batch_status issues = if has_blocking issues then review_required else calculated

abbrev pub planned_for : List (Text × Rail) → Option Text → Option Rail
planned_for plan none = none
planned_for plan (some w) = map_get w plan

-- The rows of `createMany`, with ids counted up.
unfoldable pub allocation_rows :
    ℕ → ℕ → List (Text × Rail) → List Engine.Allocation → List Allocation
unfolding map_get
allocation_rows i batch plan [] = []
allocation_rows i batch plan (a ∷ as') =
    record {
      id = i;
      batch = batch;
      identity = a.identity;
      pooled_tip = a.pooled_tip;
      net_allocated = a.net_allocated;
      planned_rail = planned_for plan a.identity.worker_id;
      payment = unpaid;
    }
    ∷ allocation_rows (i + 1) batch plan as'

-- What the upsert writes, in a new row and over an old one: all but the id.
abbrev pub computed :
    Hashes
    → ℕ
    → Text
    → ℕ
    → Option ℕ
    → Policy
    → List TipRow
    → List ShiftRow
    → Engine.Batch
    → ℕ
    → Batch
computed h venue date now user policy tips shifts result i = record {
  id = i;
  venue = venue;
  business_date = date;
  policy = policy.id;
  policy_version = policy.version;
  status = batch_status result.issues;
  pool = result.pool;
  evidence_hash =
      h.of_evidence (sort_by text_gt (map (λ t. t.source_hash) tips))
        (sort_by text_gt (map (λ s. s.source_hash) shifts));
  allocation_hash = h.of_result policy.version result;
  review_issues = result.issues;
  calculated_at = now;
  calculated_by = user;
  approved_at = none;
  approved_by = none;
}

-- The update of an existing batch leaves its policy id as it was.
abbrev pub recomputed : (ℕ → Batch) → Batch → Batch
recomputed new b = let fresh = new b.id in record fresh { policy = b.policy }

abbrev pub id_or : ℕ → Option Batch → ℕ
id_or i none = i
id_or i (some b) = b.id

-- The transaction that stores a result.
unfoldable pub save_batch :
    ℕ
    → Text
    → ℕ
    → (ℕ → Batch)
    → Option Batch
    → List (Text × Rail)
    → List Engine.Allocation
    → Store
    → Store
unfolding filter_rows upsert_row allocation_rows text_eq
save_batch venue date version new existing plan rows st =
    let i = id_or st.next_id existing in
    record st {
      allocations =
          (if is_some existing
            then filter_rows (λ a. not (a.batch == i)) st.allocations
            else st.allocations)
          ++ allocation_rows (st.next_id + 1) i plan rows;
      batches =
          upsert_row (is_batch venue date version) (recomputed new) (new st.next_id) st.batches;
      next_id = st.next_id + 1 + length rows;
    }

abbrev pub evidence_tips : ℕ → Text → Store → List TipRow
evidence_tips venue date st =
    filter_rows (λ t. t.venue == venue && text_eq t.business_date date) st.tips

abbrev pub evidence_shifts : ℕ → Text → Store → List ShiftRow
evidence_shifts venue date st =
    filter_rows (λ s. s.venue == venue && text_eq s.business_date date) st.shifts

unfoldable pub calculate :
    Platform → Hashes → ℕ → Text → Option ℕ → ℕ → Option ℕ → Store → Result Store
unfolding find_row filter_rows active_policy sort_by text_gt text_eq has_blocking plan_rails
    save_batch compute_allocation_batch
calculate pl h venue date version now user st = do
  _ ← or_throw (find_row (λ v. v == venue) st.venues) not_found
  policy ← or_throw (choose_policy venue version st) not_found
  let tips = evidence_tips venue date st
  let shifts = evidence_shifts venue date st
  require (not (length tips == 0 && length shifts == 0)) bad_request
  let existing = find_row (is_batch venue date policy.version) st.batches
  require (may_recalculate existing) conflict
  result ←
      compute_allocation_batch pl (map (λ t. t.input) tips) (map (λ s. s.input) shifts)
        policy.terms.engine
  ok (
      save_batch venue date policy.version
        (computed h venue date now user policy tips shifts result) existing (plan_rails shifts)
        result.allocations st)

abbrev pub next_version : Option Policy → ℕ
next_version none = 1
next_version (some p) = p.version + 1

-- The row that `createVersion` adds, after the versions of the venue.
unfoldable pub new_policy : ℕ → ℕ → ℕ → Terms → Store → Policy
unfolding latest filter_rows
new_policy venue user now terms st = record {
  id = st.next_id;
  venue = venue;
  version = next_version (latest (filter_rows (λ p. p.venue == venue) st.policies));
  is_active = true;
  effective_to = none;
  created_by = user;
  terms = terms;
}

-- The foreign key to the venue is not modelled.
unfoldable pub create_version : ℕ → ℕ → ℕ → Terms → Store → Store
unfolding update_rows new_policy
create_version venue user now terms st = record st {
  policies =
      update_rows (λ p. p.venue == venue && p.is_active)
        (λ p. record p { is_active = false; effective_to = some now }) st.policies
      ++ (new_policy venue user now terms st ∷ []);
  next_id = st.next_id + 1;
}
