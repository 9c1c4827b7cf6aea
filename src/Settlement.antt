-- ===== src/Settlement.antt =====
-- apps/api/src/payouts/payouts.service.ts and apps/worker/src/solana-settlement.service.ts: paying an
-- allocation, and following a USDC payout to its end.
pub mod Types
pub mod Queries
pub mod Create
pub mod Legacy
pub mod Send
pub mod Worker
pub mod Reconcile
pub mod Finality
pub mod FinalApi
pub mod Safety
pub mod Overlaps
pub mod Live
pub mod Acts
pub mod Machine
pub mod FinalWorker
pub mod FinalJob
pub mod FinalRound
