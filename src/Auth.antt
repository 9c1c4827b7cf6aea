-- ===== src/Auth.antt =====
-- apps/api/src/auth/auth.service.ts: one-time codes, and refresh tokens and their rotation.
pub mod Tokens
pub mod Once
pub mod Otp
pub mod Guesses
pub mod Bound
