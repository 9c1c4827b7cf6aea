-- ===== src/Settlement/Types.antt =====
-- The tables, the chain and the third-party code that apps/api/src/payouts/payouts.service.ts and
-- apps/worker/src/solana-settlement.service.ts work on. Ids are numbers; `payment_id` is the id of the
-- allocation, as in the source.
use serveproof.Prelude.{ℕ, Bool, Option, List, Text}
use serveproof.Shared.Blockhash.{Confirmation}

pub data Rail : Type 0 where
  cash_retained cash_drawer payroll payout_provider bank_reference usdc : Rail

pub data BatchStatus : Type 0 where
  draft calculated review_required approved payable partially_paid paid : BatchStatus
  corrected reversed disputed : BatchStatus

pub data PaymentStatus : Type 0 where
  unpaid pending settled payment_failed : PaymentStatus

pub data PayoutStatus : Type 0 where
  created initiated submitted confirmed finalized failed undone amended : PayoutStatus

pub record Wallet : Type 0 where
  pub id : ℕ
  pub address : Text
  pub is_active : Bool

pub record Worker : Type 0 where
  pub id : ℕ
  pub default_wallet : Option ℕ

pub record Venue : Type 0 where
  pub id : ℕ
  pub payout_signer : Option Text

pub record Batch : Type 0 where
  pub id : ℕ
  pub venue : ℕ
  pub status : BatchStatus
  pub allocation_hash : Option Text

-- `payment` is the source's `payoutStatus`; its PAID and FAILED are `settled` and `payment_failed`.
pub record Allocation : Type 0 where
  pub id : ℕ
  pub batch : ℕ
  pub worker : Option ℕ
  pub net_allocated : ℕ
  pub payout_rail : Option Rail
  pub payment : PaymentStatus

-- The states REVERSED and CORRECTED, which neither service sets, are `undone` and `amended`.
pub record Payout : Type 0 where
  pub id : ℕ
  pub payment_id : ℕ
  pub allocation : ℕ
  pub worker : ℕ
  pub venue : ℕ
  pub wallet : Option ℕ
  pub rail : Rail
  pub asset : Text
  pub amount_base_units : ℕ
  pub amount_cents : ℕ
  pub status : PayoutStatus
  pub external_reference : Option Text
  pub tx_signature : Option Text
  pub settlement_pda : Option Text
  pub recent_blockhash : Option Text
  pub last_valid_height : Option ℕ
  pub signed_transaction : Option Text
  pub last_broadcast_at : Option ℕ
  pub broadcast_attempts : ℕ
  pub slot : Option ℕ
  pub block_time : Option ℕ
  pub initiated_at : Option ℕ
  pub initiated_by : Option ℕ
  pub submitted_by : Option ℕ
  pub signer_wallet : Option Text
  pub settled_at : Option ℕ
  pub failed_reason : Option Text

pub record Job : Type 0 where
  pub payout : ℕ
  pub signature : Text

-- The tables, the confirmation queue, the transactions handed to the RPC node, and the venues whose
-- income projection was rebuilt, in order.
pub record Store : Type 0 where
  pub wallets : List Wallet
  pub workers : List Worker
  pub venues : List Venue
  pub batches : List Batch
  pub allocations : List Allocation
  pub payouts : List Payout
  pub jobs : List Job
  pub sent : List Text
  pub projections : List ℕ
  pub next_id : ℕ

pub record SettlementRecord : Type 0 where
  pub amount : ℕ
  pub settled_at : ℕ

pub record SignatureStatus : Type 0 where
  pub error : Option Text
  pub confirmation : Option Confirmation
  pub slot : ℕ

-- What the RPC node answers during one call.
pub record Chain : Type 0 where
  -- `getBlockHeight("confirmed")`.
  pub block_height : ℕ
  -- `fetchSettlementRecord`, by payment id, at the commitments `confirmed` and `finalized`.
  pub settlement : ℕ → Option SettlementRecord
  pub final_settlement : ℕ → Option SettlementRecord
  pub signature_status : Text → Option SignatureStatus
  -- `getSlot("finalized")`, `getTransaction` at `finalized`, `getBlockTime`.
  pub final_slot : ℕ
  pub final_transaction : Text → Bool
  pub block_time : ℕ → Option ℕ
  -- `getLatestBlockhash`.
  pub latest_blockhash : Text
  pub latest_valid_height : ℕ
  -- The message of the error or timeout of `sendRawTransaction`, if any.
  pub send_error : Option Text

pub record SignedTransaction : Type 0 where
  pub blockhash : Option Text
  -- The bytes of `signatures[0]?.signature`.
  pub signature : Option (List ℕ)
  -- `serialize()`; `none` is its exception.
  pub raw : Option Text

-- @solana/web3.js, the Anchor program and node:crypto.
pub record Library : Type 0 where
  pub is_pubkey : Text → Bool
  -- `sha256Hex(paymentId)` is a function of the payment id, and is left out with its column.
  pub settlement_pda : ℕ → Text
  pub is_hash : Text → Bool
  -- `Transaction.from`; `none` is its exception.
  pub decode : Text → Option SignedTransaction
