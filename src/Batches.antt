-- ===== src/Batches.antt =====
-- apps/api/src/allocations/allocations.service.ts: computing, approving and rejecting a batch of
-- allocations, and planning the rails of its payments. apps/api/src/policies/policies.service.ts: the
-- versions of a venue's policy.
pub mod Types
pub mod Plan
pub mod Calculate
pub mod Review
pub mod Closed
pub mod Stored
pub mod Agreed
