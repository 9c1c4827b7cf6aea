-- ===== src/Income.antt =====
-- packages/db/src/income-projector.ts: the split of an amount over the shifts of a worker.
pub mod Split
pub mod Whole
