-- ===== src/Staffing/Types.antt =====
-- The tables that apps/api/src/staffing/staffing.service.ts reads and writes. Ids are numbers, and
-- instants are milliseconds.
use serveproof.Prelude.{ℕ, Option, List, Text}

pub data OpenShiftStatus : Type 0 where
  draft opened filled in_progress completed cancelled : OpenShiftStatus

pub data AssignmentStatus : Type 0 where
  invited accepted declined withdrawn clocked_in clocked_out approved no_show : AssignmentStatus

pub record OpenShift : Type 0 where
  pub id : ℕ
  pub venue : ℕ
  pub created_by : ℕ
  pub role : Text
  pub description : Option Text
  pub starts_at : ℕ
  pub ends_at : ℕ
  pub hourly_rate : ℕ
  pub expected_tip : ℕ
  pub headcount : ℕ
  pub status : OpenShiftStatus
  pub published_at : Option ℕ
  pub cancelled_at : Option ℕ

-- `withdrawn` is the source's CANCELLED of an assignment.
pub record Assignment : Type 0 where
  pub id : ℕ
  pub open_shift : ℕ
  pub worker : ℕ
  pub status : AssignmentStatus
  pub invited_by : Option ℕ
  pub responded_at : Option ℕ
  pub check_in_at : Option ℕ
  pub check_out_at : Option ℕ
  pub approved_at : Option ℕ
  pub approved_by : Option ℕ
  pub shift_evidence : Option ℕ
  pub cancellation_reason : Option Text

pub record Worker : Type 0 where
  pub id : ℕ
  pub user : ℕ

-- A row of ExternalWorkerAccount with the mapping status CONFIRMED.
pub record Connection : Type 0 where
  pub venue : ℕ
  pub worker : ℕ

-- A row of ShiftEvidence of the provider `serveproof_staffing`; the columns that this service sets to
-- constants are left out (PLATFORM_ATTESTED, APPROVED, PAYROLL, PENDING).
pub record Evidence : Type 0 where
  pub id : ℕ
  pub venue : ℕ
  pub external_shift : ℕ
  pub external_worker : ℕ
  pub mapped_worker : ℕ
  pub role : Text
  pub clock_in : ℕ
  pub clock_out : ℕ
  pub worked_minutes : ℕ
  pub business_date : Text
  pub source_hash : Text

pub data AuditDetail : Type 0 where
  no_detail : AuditDetail
  created : Text → ℕ → ℕ → AuditDetail
  reason : Option Text → AuditDetail
  invitee : ℕ → AuditDetail
  at : ℕ → AuditDetail
  evidence : ℕ → Text → Option ℕ → AuditDetail

pub record AuditRow : Type 0 where
  pub venue : ℕ
  pub actor : ℕ
  pub action : Text
  pub entity : ℕ
  pub detail : AuditDetail

pub record Store : Type 0 where
  pub open_shifts : List OpenShift
  pub assignments : List Assignment
  pub workers : List Worker
  pub connections : List Connection
  pub evidence_rows : List Evidence
  pub audit_log : List AuditRow
  pub next_id : ℕ

-- The service's use of the time zone database and of SHA-256.
pub record Runtime : Type 0 where
  -- `businessDateInTimezone(instant, venue.timezone)`.
  pub business_date : ℕ → ℕ → Text
  -- The digest of the assignment's id, worker, instants and role.
  pub source_hash : ℕ → ℕ → ℕ → ℕ → Text → Text
