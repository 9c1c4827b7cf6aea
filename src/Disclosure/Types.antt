-- ===== src/Disclosure/Types.antt =====
-- The tables of apps/api/src/disclosure/disclosure.service.ts. Ids and instants are numbers.
use serveproof.Prelude.{ℕ, Bool, Option, List, Text}

pub data Level : Type 0 where
  level_one level_two level_three : Level

pub data AccessMode : Type 0 where
  link recipient_otp : AccessMode

pub data ReportState : Type 0 where
  draft issued expired corrected revoked : ReportState

-- Of an income entry with its shift and its venue. `allocated` is not negative here.
pub record Shift : Type 0 where
  pub business_date : Text
  pub role : Text
  -- `ingestSource === "PROVIDER_API"`.
  pub from_provider : Bool

pub record Entry : Type 0 where
  pub worker : ℕ
  -- `effectiveStatus === "ACTIVE"`.
  pub is_active : Bool
  pub shift : Option Shift
  pub venue : ℕ
  pub venue_name : Text
  pub allocated : ℕ
  pub paid : ℕ
  pub payroll_reported : ℕ
  pub withholding : Text
  pub payout_rail : Option Text
  pub grade : Text
  pub correction_of : Option ℕ

-- What LEVEL_2 discloses.
pub record Figures : Type 0 where
  pub average_monthly : ℕ
  pub months_covered : ℕ
  pub payer_count : ℕ
  pub grades : List (Text × ℕ)
  pub best_grade : Text
  pub has_corrections : Bool
  pub total_allocated : ℕ
  pub total_paid : ℕ
  pub provider_share : ℕ
  pub monthly_breakdown : List (Text × ℕ)
  pub observed_days : ℕ

-- The threshold and whether the average reaches it; the figures; the figures and the entries.
pub data Snapshot : Type 0 where
  criterion : ℕ → Bool → Snapshot
  figures : Figures → Snapshot
  detail : Figures → List Entry → Snapshot

pub record Grant : Type 0 where
  pub id : ℕ
  pub worker : ℕ
  pub purpose : Text
  pub level : Level
  pub threshold : Option ℕ
  pub range_start : ℕ
  pub range_end : ℕ
  pub expires_at : ℕ
  pub allow_download : Bool
  pub recipient_email : Option Text
  pub access_mode : AccessMode
  pub token_hash : Text
  pub revoked_at : Option ℕ

pub record Report : Type 0 where
  pub id : ℕ
  pub worker : ℕ
  pub grant : ℕ
  pub hash : Text
  pub snapshot : Snapshot
  pub state : ReportState
  pub issued_at : ℕ
  pub expires_at : ℕ
  pub revoked_at : Option ℕ
  pub previous : Option ℕ
  -- Whether the PDF was stored; its path is a function of the id.
  pub has_pdf : Bool

pub record Worker : Type 0 where
  pub id : ℕ
  pub user : ℕ
  pub name : Text

pub record AccessLog : Type 0 where
  pub grant : ℕ
  pub at_ : ℕ

-- Reports stand in the order of their creation.
pub record Store : Type 0 where
  pub workers : List Worker
  pub entries : List Entry
  pub grants : List Grant
  pub reports : List Report
  pub accesses : List AccessLog
  pub next_id : ℕ

-- `Date`, the division of doubles, node:crypto and JSON.
pub record Runtime : Type 0 where
  -- The instant of `${date}T12:00:00Z`.
  pub noon : Text → ℕ
  -- `Math.round(p / t)`.
  pub round_div : ℕ → ℕ → ℕ
  -- `Math.round((p / t) * 100)`.
  pub round_percent : ℕ → ℕ → ℕ
  -- `sha256Hex`.
  pub sha : Text → Text
  -- The HMAC of the snapshot, the grant's id and the instant of issue, under the signing key.
  pub sign : Snapshot → ℕ → ℕ → Text
