-- ===== src/Api.antt =====
-- The HTTP API: internal/api.
pub mod Limiter
pub mod Accounts
pub mod Server
pub mod Passwords
pub mod Access
pub mod Control
pub mod Login
pub mod Setup
pub mod Routes
