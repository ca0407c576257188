-- ===== src/Conditions.antt =====
-- Conditions, their evaluation and their dwell timers: internal/conditions.
pub mod Config
pub mod Dwell
pub mod Template
pub mod Evaluator
pub mod Explain
