-- ===== src/Allocation/Types.antt =====
-- The inputs and the result of packages/shared/src/allocation.ts. Weights are whole numbers of a fixed
-- fraction of the source's unit (0.7 is 7 tenths), which scales every score alike.
use serveproof.Prelude.{ℕ, Bool, Option, List, Text}
use serveproof.Prelude.Int.{ℤ}

pub data TipType : Type 0 where
  cash_tip card_tip qr_tip automatic_gratuity service_charge : TipType

pub data PaymentStatus : Type 0 where
  completed pending canceled : PaymentStatus

pub data RefundStatus : Type 0 where
  no_refund partial_refund full_refund : RefundStatus

pub record TipInput : Type 0 where
  pub tip_type : TipType
  pub gross : ℕ
  pub payment_status : Option PaymentStatus
  pub refund_status : Option RefundStatus

pub data ShiftStatus : Type 0 where
  in_progress worked approved voided : ShiftStatus

pub record ShiftInput : Type 0 where
  pub worker_id : Option Text
  pub external_worker_id : Text
  pub provider : Text
  pub role : Text
  pub worked_minutes : ℤ
  pub shift_status : ShiftStatus

pub record PolicyInput : Type 0 where
  pub role_weights : List (Text × ℕ)
  pub excluded_roles : List Text
  pub pool_inclusion : TipType → Option Bool

pub data IssueCode : Type 0 where
  unmapped_worker non_positive_minutes unknown_role refunded_payment_excluded : IssueCode
  canceled_payment_excluded empty_pool no_eligible_shifts : IssueCode

pub data Detail : Type 0 where
  no_detail : Detail
  tip_detail : TipType → ℕ → Detail
  worker_detail : Text → Text → Text → Detail
  minutes_detail : Text → ℤ → Detail
  role_detail : Text → Text → Detail

pub record Issue : Type 0 where
  pub code : IssueCode
  pub blocking : Bool
  pub detail : Detail

pub record Identity : Type 0 where
  pub worker_id : Option Text
  pub provider : Option Text
  pub external_worker_id : Option Text

pub record Allocation : Type 0 where
  pub identity : Identity
  pub score : ℕ
  pub pooled_tip : ℕ
  pub net_allocated : ℕ

pub record Batch : Type 0 where
  pub pool : ℕ
  pub total_score : ℕ
  pub allocations : List Allocation
  pub issues : List Issue
