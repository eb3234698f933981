-- ===== src/Validate.antt =====
-- internal/validate/validate.go, and the functions of Go's package net that it calls.
pub mod Address
pub mod Domain
pub mod Normalize
