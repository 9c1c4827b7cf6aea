-- ===== src/Batches/Stored.antt =====
-- What `calculate` (apps/api/src/allocations/allocations.service.ts) stores.
use mathlib.Core.Option
use serveproof.Prelude.{
  ℕ, ◌+◌, ◌<◌, ◌≡◌, ◌⊎◌, inl, inr, refl, ap, ◌∙◌, true, not, Option, none, some, List, [], ◌∷◌,
  ◌++◌, Text, text_eq_refl, ◌==◌, ==_refl, All, All-mono, sum_by, or_else, is_some, if◌then◌else◌,
  arith,
}
use serveproof.Prelude.Http.{OnOk, OnOk-bind, OnOk-or_throw, OnOk-require, returns}
use serveproof.Prelude.Tables.{find_row, filter_rows, find_row-upsert_row}
use serveproof.Prelude.Filters.{
  filter_rows-append, filter_rows-none, filter_rows-All, filter_rows-not,
}
use serveproof.Platform.{Platform}
use serveproof.Allocation.Types as Engine
use serveproof.Allocation.Balanced.{net, IsBalanced, compute_allocation_batch-IsBalanced}
use serveproof.Settlement.Types.{Rail}
use serveproof.Batches.Types.{TipRow, ShiftRow, Policy, Batch, Allocation, Store, Hashes}
use serveproof.Batches.Plan.{plan_rails}
use serveproof.Batches.Calculate.{
  evidence_tips, evidence_shifts, is_batch, recomputed, computed, id_or, choose_policy,
  allocation_rows, save_batch, calculate,
}

abbrev pub net_of : Allocation → ℕ
net_of a = a.net_allocated

-- The allocations of a batch.
abbrev pub rows_of : ℕ → List Allocation → List Allocation
rows_of i = filter_rows (λ a. a.batch == i)

-- Under a key there is a batch, calculated now and not approved, whose allocations add up to its pool or
-- which has none.
abbrev pub IsStored : ℕ → Text → ℕ → ℕ → Store → Type 0
IsStored venue date version now st =
    (b : Batch) × (find_row (is_batch venue date version) st.batches ≡ some b)
    × (b.calculated_at ≡ now)
    × (b.approved_by ≡ none)
    × ((rows_of b.id st.allocations ≡ []) ⊎ (sum_by net_of (rows_of b.id st.allocations) ≡ b.pool))

allocation_rows-net :
    (i batch : ℕ) (plan : List (Text × Rail)) (as' : List Engine.Allocation)
    → sum_by net_of (allocation_rows i batch plan as') ≡ sum_by net as'
unfolding allocation_rows
allocation_rows-net i batch plan [] = refl
allocation_rows-net i batch plan (a ∷ as') =
    omega (arith, allocation_rows-net (i + 1) batch plan as')

allocation_rows-batch :
    (i batch : ℕ) (plan : List (Text × Rail)) (as' : List Engine.Allocation)
    → All (λ a. (a.batch == batch) ≡ true) (allocation_rows i batch plan as')
unfolding allocation_rows
allocation_rows-batch i batch plan [] = tt
allocation_rows-batch i batch plan (a ∷ as') =
    (==_refl batch, allocation_rows-batch (i + 1) batch plan as')

-- The rows that were there before.
abbrev kept_rows : Option Batch → Store → List Allocation
kept_rows existing st =
    if is_some existing
    then filter_rows (λ a. not (a.batch == id_or st.next_id existing)) st.allocations
    else st.allocations

kept_rows-none :
    (existing : Option Batch) (st : Store)
    → All (λ a. a.batch < st.next_id) st.allocations
    → rows_of (id_or st.next_id existing) (kept_rows existing st) ≡ []
kept_rows-none none st fresh =
    filter_rows-none _ st.allocations (All-mono st.allocations (λ a h. ground arith) fresh)
kept_rows-none (some b) st fresh = filter_rows-not (λ a. a.batch == b.id) st.allocations

saved_rows :
    (existing : Option Batch) (plan : List (Text × Rail)) (as' : List Engine.Allocation)
    (st : Store)
    → All (λ a. a.batch < st.next_id) st.allocations
    → rows_of (id_or st.next_id existing) (
        kept_rows existing st
        ++ allocation_rows (st.next_id + 1) (id_or st.next_id existing) plan as')
      ≡ allocation_rows (st.next_id + 1) (id_or st.next_id existing) plan as'
saved_rows existing plan as' st fresh =
    let i = id_or st.next_id existing in
    let new = allocation_rows (st.next_id + 1) i plan as' in
    filter_rows-append (λ a. a.batch == i) (kept_rows existing st) new
    ∙ ap (λ xs. xs ++ rows_of i new) (kept_rows-none existing st fresh)
    ∙ filter_rows-All (λ a. a.batch == i) new (allocation_rows-batch (st.next_id + 1) i plan as')

stored_rows :
    (existing : Option Batch) (plan : List (Text × Rail)) (result : Engine.Batch) (st : Store)
    → All (λ a. a.batch < st.next_id) st.allocations
    → IsBalanced result
    → let rows = rows_of (id_or st.next_id existing) (
        kept_rows existing st
        ++ allocation_rows (st.next_id + 1) (id_or st.next_id existing) plan result.allocations) in
      (rows ≡ []) ⊎ (sum_by net_of rows ≡ result.pool)
stored_rows existing plan result st fresh (inl e) =
    inl
      (saved_rows existing plan result.allocations st fresh ∙ rw e (unfold allocation_rows in refl))
stored_rows existing plan result st fresh (inr e) = inr (
    ap (sum_by net_of) (saved_rows existing plan result.allocations st fresh)
    ∙ allocation_rows-net (st.next_id + 1) (id_or st.next_id existing) plan result.allocations
    ∙ e)

-- The row under the key after the upsert.
abbrev saved_batch : (ℕ → Batch) → ℕ → Option Batch → Batch
saved_batch new i existing = or_else (Option.map (recomputed new) existing) (new i)

module _ (h : Hashes) (venue : ℕ) (date : Text) (now : ℕ) (user : Option ℕ) (policy : Policy) where
  save_batch-IsStored :
      (tips : List TipRow) (shifts : List ShiftRow) (result : Engine.Batch)
      (plan : List (Text × Rail)) (st : Store)
      → All (λ a. a.batch < st.next_id) st.allocations
      → IsBalanced result
      → IsStored venue date policy.version now (
          save_batch venue date policy.version
            (computed h venue date now user policy tips shifts result)
            (find_row (is_batch venue date policy.version) st.batches)
            plan
            result.allocations
            st)
  unfolding save_batch
  save_batch-IsStored tips shifts result plan st fresh balanced =
      let new = computed h venue date now user policy tips shifts result in
      let existing = find_row (is_batch venue date policy.version) st.batches in
      let keyed : (i : ℕ) → is_batch venue date policy.version (new i) ≡ true =
        λ i. rw (==_refl venue, text_eq_refl date, ==_refl policy.version) refl in
      (
        saved_batch new st.next_id existing,
        find_row-upsert_row (is_batch venue date policy.version) (recomputed new) (new st.next_id)
            st.batches (λ x k. keyed x.id) (keyed st.next_id),
        (not_approved existing).0,
        (not_approved existing).1,
        balance existing,
      )
    where
      not_approved :
          (o : Option Batch)
          → ((saved_batch
                (computed h venue date now user policy tips shifts result)
                st.next_id
                o).calculated_at
              ≡ now)
            × ((saved_batch
                  (computed h venue date now user policy tips shifts result)
                  st.next_id
                  o).approved_by
                ≡ none)
      not_approved none = (refl, refl)
      not_approved (some b) = (refl, refl)

      balance :
          (o : Option Batch)
          → (rows_of
                (saved_batch
                  (computed h venue date now user policy tips shifts result)
                  st.next_id
                  o).id
                (kept_rows o st
                  ++ allocation_rows (st.next_id + 1) (id_or st.next_id o) plan result.allocations)
              ≡ [])
            ⊎ (sum_by net_of (
                  rows_of
                    (saved_batch
                      (computed h venue date now user policy tips shifts result)
                      st.next_id
                      o).id
                    (kept_rows o st
                      ++ allocation_rows
                          (st.next_id + 1)
                          (id_or st.next_id o)
                          plan
                          result.allocations))
                ≡ (saved_batch
                    (computed h venue date now user policy tips shifts result)
                    st.next_id
                    o).pool)
      balance none = stored_rows none plan result st fresh balanced
      balance (some b) = stored_rows (some b) plan result st fresh balanced

-- A calculation that returns stores, under its venue, date and policy version, a batch of this instant that
-- is not approved and whose allocations, those of an earlier calculation removed, add up to its pool or are
-- none, if no allocation has the id of a batch to come.
pub calculate-IsStored :
    (pl : Platform) (h : Hashes) (venue : ℕ) (date : Text) (version : Option ℕ) (now : ℕ)
    (user : Option ℕ) (st : Store)
    → All (λ a. a.batch < st.next_id) st.allocations
    → OnOk
        (λ st'.
          (p : Policy) × (choose_policy venue version st ≡ some p)
          × IsStored venue date p.version now st')
        (calculate pl h venue date version now user st)
unfolding calculate
calculate-IsStored pl h venue date version now user st fresh = OnOk-or_throw _ _ _ λ _ _.
    OnOk-or_throw _ _ _ λ policy chosen. OnOk-require _ _ _ λ _. OnOk-require _ _ _ λ k.
      OnOk-bind _ _ (compute_allocation_batch-IsBalanced pl _ _ policy.terms.engine)
        λ result balanced. returns (
          policy,
          chosen,
          save_batch-IsStored h venue date now user policy (evidence_tips venue date st)
              (evidence_shifts venue date st) result (plan_rails (evidence_shifts venue date st)) st
              fresh balanced,
        )
