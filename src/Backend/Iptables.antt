-- ===== src/Backend/Iptables.antt =====
-- internal/backend/iptables.go: the backend for iptables and ipset.
pub mod Commands
pub mod Tool
mod Sets
mod Payloads
pub mod Matching
mod Names
pub mod Defs
mod Full
pub mod Apply
pub mod Teardown
pub mod Tests
mod TeardownRuns
