-- ===== src/Config.antt =====
-- The configuration: internal/config.
pub mod Duration
pub mod Types
pub mod Clients
pub mod Validate
