-- ===== src/Tests.antt =====
-- Concrete inputs, and the theorems applied to them.
pub mod Fixtures
pub mod Facts
pub mod Config
pub mod Conditions
pub mod Engine
pub mod Machine
pub mod Endings
pub mod Api
pub mod Simulate
