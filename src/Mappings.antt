-- ===== src/Mappings.antt =====
-- apps/api/src/mappings/mappings.service.ts: connecting the workers of external systems to accounts, and
-- the shares that were held for them.
pub mod Connect
pub mod Tables
pub mod Kept
