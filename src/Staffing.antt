-- ===== src/Staffing.antt =====
-- apps/api/src/staffing/staffing.service.ts: open shifts and their assignments.
pub mod Types
pub mod Queries
pub mod Shifts
pub mod Assignments
pub mod Approval
pub mod Capacity
pub mod Headcount
pub mod Places
pub mod Calls
pub mod Outcomes
pub mod Approved
