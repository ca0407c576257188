-- ===== src/State.antt =====
-- The state database: internal/state.
pub mod Types
pub mod Locks
pub mod Tables
pub mod Saves
