-- ===== src/Daemon/Tests.antt =====
-- Runs of the daemon: a user and root, with a backend that records the state it is given.
pub mod Fixtures
pub mod EngineRuns
pub mod RequestRuns
pub mod ServerRuns
pub mod StartRuns
