-- ===== src/Simulate.antt =====
-- The replay of a scripted timeline against a plan: internal/simulate.
pub mod Timeline
pub mod Store
pub mod Feed
pub mod Run
