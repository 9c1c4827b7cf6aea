-- ===== src/Disclosure.antt =====
-- apps/api/src/disclosure/disclosure.service.ts: grants of access to an income proof, the reports made
-- of them, and who may see a report.
pub mod Types
pub mod Snapshot
pub mod Totals
pub mod Grants
pub mod Access
pub mod Otp
pub mod Guesses
pub mod Bound
pub mod Verify
pub mod Revoked
