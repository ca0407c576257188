-- ===== src/Config/Validate/Accepted.antt =====
-- What a configuration has that validation finds no error in (internal/config/validate.go).
pub mod Parts
pub mod Names
pub mod Plans
pub mod Times
pub mod Host
