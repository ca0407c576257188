-- ===== src/Engine.antt =====
-- The engine: internal/engine.
pub mod Types
pub mod Sequence
pub mod Executor
pub mod Abort
pub mod Phase
pub mod Shutdown
pub mod Stages
pub mod Wake
pub mod Resume
pub mod Policy
pub mod Address
pub mod Machine
pub mod Derived
