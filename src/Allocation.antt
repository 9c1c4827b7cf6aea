-- ===== src/Allocation.antt =====
-- packages/shared/src/allocation.ts: the allocation engine.
pub mod Types
pub mod Maps
pub mod Pool
pub mod Scores
pub mod Shares
pub mod Keys
pub mod Totals
pub mod Cents
pub mod Floors
pub mod Exact
pub mod Balanced
