-- ===== src/Shared.antt =====
-- packages/shared/src: pure helpers that the API and the worker share.
pub mod BaseUnits
pub mod Blockhash
pub mod Base58
pub mod Digits
pub mod Usd
pub mod UsdTrip
pub mod Emails
