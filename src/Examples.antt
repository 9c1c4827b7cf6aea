-- ===== src/Examples.antt =====
-- The theorems of the other modules at concrete inputs.
mod Engine
mod Shifts
mod Payments
mod Reviews
mod Incomes
mod Memory
mod Imports
mod Reports
mod Logins
mod Links
