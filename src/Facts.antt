-- ===== src/Facts.antt =====
-- The fact model: internal/facts/types.go and internal/facts/store.go.
pub mod Types
pub mod Store
pub mod Kleene
pub mod Fresh
pub mod Keys
pub mod Format
