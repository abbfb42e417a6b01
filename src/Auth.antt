-- ===== src/Auth.antt =====
-- internal/auth: passwords, login attempts, tokens and the authenticator.
pub mod LoginLimiter
pub mod Strength
pub mod Authenticator
pub mod Accounts
pub mod Base64
pub mod ApiKeys
pub mod PasswordHash
pub mod Sessions
