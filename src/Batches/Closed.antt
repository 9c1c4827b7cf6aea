-- ===== src/Batches/Closed.antt =====
-- What the batches and the policies of a venue keep (apps/api/src/allocations/allocations.service.ts,
-- apps/api/src/policies/policies.service.ts).
use serveproof.Prelude.{
  ℕ, ◌≤◌, ◌<◌, ◌≡◌, inl, inr, refl, ap, ◌∙◌, Bool, true, false, not, ◌&&◌, Option, none, some, List,
  [], ◌∷◌, ◌++◌, Text, ◌==◌, ==_refl, All, Bool-cases, arith,
}
use serveproof.Prelude.Http.{
  Result, ok, err, OnOk, OnOk-bind, OnOk-or_throw, OnOk-require, returns, throws,
}
use serveproof.Prelude.Filters.{
  filter_rows-upsert_row, filter_rows-append, filter_rows-update_rows_none,
}
use serveproof.Prelude.Tables.{
  find_row, filter_rows, update_rows, find_row-true, find_row-update_row,
}
use serveproof.Platform.{Platform}
use serveproof.Allocation.Types as Engine
use serveproof.Allocation.Types.{Issue}
use serveproof.Settlement.Types.{Rail, payable}
use serveproof.Batches.Types.{TipRow, ShiftRow, Terms, Policy, Batch, Store, Hashes, batch_approved}
use serveproof.Batches.Plan.{plan_rails}
use serveproof.Batches.Calculate.{
  evidence_tips, evidence_shifts, is_open, may_recalculate, is_batch, recomputed, computed,
  batch_status, has_blocking, save_batch, calculate, later, latest, new_policy, create_version,
  next_version,
}
use serveproof.Batches.Review.{find_batch, set_batch, is_calculated, approve, audit}

-- APPROVED and everything after it.
abbrev pub is_closed : Batch → Bool
is_closed b = not (is_open b.status)

status-open : (issues : List Issue) → is_open (batch_status issues) ≡ true
status-open issues = elim (Bool-cases (has_blocking issues)) [
  | inl e ↦ rw e refl
  | inr e ↦ rw e refl
]

anything {ℓ} : {A : Type ℓ} (r : Result A) → OnOk (λ _. Unit {0}) r
anything (ok a) = returns tt
anything (err e) = throws

module _ (h : Hashes) (venue : ℕ) (date : Text) (now : ℕ) (user : Option ℕ) (policy : Policy) where
  save_batch-closed :
      (tips : List TipRow) (shifts : List ShiftRow) (result : Engine.Batch)
      (plan : List (Text × Rail)) (st : Store)
      → may_recalculate (find_row (is_batch venue date policy.version) st.batches) ≡ true
      → filter_rows is_closed
          (save_batch venue date policy.version
            (computed h venue date now user policy tips shifts result)
            (find_row (is_batch venue date policy.version) st.batches)
            plan
            result.allocations
            st).batches
        ≡ filter_rows is_closed st.batches
  unfolding save_batch
  save_batch-closed tips shifts result plan st k =
      filter_rows-upsert_row is_closed (is_batch venue date policy.version)
        (recomputed (computed h venue date now user policy tips shifts result))
        (computed h venue date now user policy tips shifts result st.next_id) st.batches
        (rw (status-open result.issues) refl) (λ x. rw (status-open result.issues) refl)
        (λ x e. open_found _ e k)
    where
      open_found :
          (o : Option Batch) {x : Batch}
          → o ≡ some x
          → may_recalculate o ≡ true
          → is_closed x ≡ false
      open_found none e m = cc
      open_found (some b) e m = ground arith

-- A calculation that returns changes no batch beyond review: the batches that are not DRAFT, CALCULATED
-- or REVIEW_REQUIRED are the same rows, in the same order, after it.
pub calculate-closed :
    (pl : Platform) (h : Hashes) (venue : ℕ) (date : Text) (version : Option ℕ) (now : ℕ)
    (user : Option ℕ) (st : Store)
    → OnOk
        (λ st'. filter_rows is_closed st'.batches ≡ filter_rows is_closed st.batches)
        (calculate pl h venue date version now user st)
unfolding calculate
calculate-closed pl h venue date version now user st = OnOk-or_throw _ _ _ λ _ _.
    OnOk-or_throw _ _ _ λ policy _. OnOk-require _ _ _ λ _. OnOk-require _ _ _ λ k.
      OnOk-bind {Q = λ _. Unit {0}} _ _ (anything _) λ result _. returns (
        save_batch-closed h venue date now user policy (evidence_tips venue date st)
          (evidence_shifts venue date st) result (plan_rails (evidence_shifts venue date st)) st k)

below_later :
    (p : Policy) (o : Option Policy)
    → (p.version < next_version (later p o)) × (next_version o ≤ next_version (later p o))
below_later p none = (omega arith, omega arith)
below_later p (some q) = ground arith

latest-below :
    (m : ℕ) (ps : List Policy) → next_version (latest ps) ≤ m → All (λ p. p.version < m) ps
unfolding latest
latest-below m [] h = tt
latest-below m (p ∷ ps) h =
    let b = below_later p (latest ps) in (omega arith, latest-below m ps (omega arith))

-- After `createVersion` the new row is the venue's only ACTIVE policy, and its version is above those
-- of all the venue's earlier policies.
pub create_version-active :
    (venue user now : ℕ) (terms : Terms) (st : Store)
    → (filter_rows
          (λ p. p.venue == venue && p.is_active)
          (create_version venue user now terms st).policies
        ≡ new_policy venue user now terms st ∷ [])
      × All
          (λ p. p.version < (new_policy venue user now terms st).version)
          (filter_rows (λ p. p.venue == venue) st.policies)
unfolding create_version new_policy
create_version-active venue user now terms st = (
  filter_rows-append (λ p. p.venue == venue && p.is_active)
        (update_rows (λ p. p.venue == venue && p.is_active)
          (λ p. record p { is_active = false; effective_to = some now }) st.policies)
        (new_policy venue user now terms st ∷ [])
      ∙ ap
          (λ xs.
            xs
            ++ filter_rows (λ p. p.venue == venue && p.is_active)
                (new_policy venue user now terms st ∷ []))
          (filter_rows-update_rows_none (λ p. p.venue == venue && p.is_active)
            (λ p. p.venue == venue && p.is_active)
            (λ p. record p { is_active = false; effective_to = some now }) st.policies (λ x. refl)
            (λ x. ground arith))
      ∙ (unfold filter_rows in rw (==_refl venue) refl),
  latest-below _ (filter_rows (λ p. p.venue == venue) st.policies) (omega arith),
)

-- An approval that returns found its batch CALCULATED, and leaves it PAYABLE, with the approver, the
-- instant and one audit row added.
pub approve_lem :
    (i user now : ℕ) (st : Store)
    → OnOk
        (λ st'.
          (b : Batch) × (find_batch i st ≡ some b)
          × (is_calculated b.status ≡ true)
          × (find_batch i st'
              ≡ some
                  (record b { status = payable; approved_by = some user; approved_at = some now }))
          × (st'.audits
              ≡ st.audits
                ++ (record { action = batch_approved; venue = b.venue; actor = user; entity = i }
                    ∷ [])))
        (approve i user now st)
unfolding approve set_batch find_batch audit
approve_lem i user now st = OnOk-or_throw _ _ _ λ b f. OnOk-require _ _ _ λ _.
    OnOk-require _ _ _ λ k. returns (
      b,
      f,
      k,
      find_row-update_row (λ r. r.id == i) _ st.batches f
          (find_row-true (λ r. r.id == i) st.batches f),
      refl,
    )
