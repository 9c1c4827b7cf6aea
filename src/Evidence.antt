-- ===== src/Evidence.antt =====
-- apps/api/src/evidence: splitting a CSV file, normalizing its rows, and importing them as evidence.
pub mod Csv
pub mod Fields
pub mod Rows
pub mod Amounts
pub mod Normalize
pub mod Lines
pub mod Import
pub mod Upload
pub mod Keys
pub mod Again
