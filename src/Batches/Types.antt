-- ===== src/Batches/Types.antt =====
-- The tables of apps/api/src/allocations/allocations.service.ts and
-- apps/api/src/policies/policies.service.ts. The engine's part of an evidence row is its `input`.
use serveproof.Prelude.{ℕ, Bool, Option, List, Text}
use serveproof.Allocation.Types as Engine
use serveproof.Allocation.Types.{TipInput, ShiftInput, PolicyInput, Issue, Identity}
use serveproof.Settlement.Types.{Rail, BatchStatus, PaymentStatus}

pub record TipRow : Type 0 where
  pub venue : ℕ
  pub business_date : Text
  pub source_hash : Text
  pub input : TipInput

-- `worker_id` of the input is `mappedWorkerId`.
pub record ShiftRow : Type 0 where
  pub venue : ℕ
  pub business_date : Text
  pub source_hash : Text
  pub source_rail : Option Rail
  pub input : ShiftInput

pub data AllocationType : Type 0 where
  hours_weighted role_weighted_hours equal_split : AllocationType

-- What a caller of `createVersion` gives. Instants are numbers; `tipOutRules` are one text.
pub record Terms : Type 0 where
  pub allocation_type : AllocationType
  pub engine : PolicyInput
  pub tip_out_rules : Text
  pub effective_from : ℕ

-- ACTIVE or ARCHIVED.
pub record Policy : Type 0 where
  pub id : ℕ
  pub venue : ℕ
  pub version : ℕ
  pub is_active : Bool
  pub effective_to : Option ℕ
  pub created_by : ℕ
  pub terms : Terms

pub record Batch : Type 0 where
  pub id : ℕ
  pub venue : ℕ
  pub business_date : Text
  pub policy : ℕ
  pub policy_version : ℕ
  pub status : BatchStatus
  pub pool : ℕ
  pub evidence_hash : Text
  pub allocation_hash : Text
  pub review_issues : List Issue
  pub calculated_at : ℕ
  pub calculated_by : Option ℕ
  pub approved_at : Option ℕ
  pub approved_by : Option ℕ

pub record Allocation : Type 0 where
  pub id : ℕ
  pub batch : ℕ
  pub identity : Identity
  pub pooled_tip : ℕ
  pub net_allocated : ℕ
  pub planned_rail : Option Rail
  pub payment : PaymentStatus

pub record Worker : Type 0 where
  pub id : Text
  -- The default wallet exists and is ACTIVE.
  pub has_wallet : Bool

pub data Action : Type 0 where
  batch_approved batch_rejected rails_assigned rail_changed : Action

pub record AuditRow : Type 0 where
  pub action : Action
  pub venue : ℕ
  pub actor : ℕ
  pub entity : ℕ

pub record Store : Type 0 where
  pub venues : List ℕ
  pub policies : List Policy
  pub tips : List TipRow
  pub shifts : List ShiftRow
  pub batches : List Batch
  pub allocations : List Allocation
  pub workers : List Worker
  pub audits : List AuditRow
  pub next_id : ℕ

-- `sha256(JSON.stringify(...))` of the evidence's hashes, and of the policy version and the result.
pub record Hashes : Type 0 where
  pub of_evidence : List Text → List Text → Text
  pub of_result : ℕ → Engine.Batch → Text
