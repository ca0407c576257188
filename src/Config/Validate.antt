-- ===== src/Config/Validate.antt =====
-- Validation of a configuration: internal/config/validate.go.
pub mod Report
pub mod Conditions
pub mod Settings
pub mod Clients
pub mod Plans
pub mod Stages
pub mod Identity
pub mod Whole
pub mod Accepted
pub mod Cycles
