-- ===== src/Client.antt =====
-- cmd/webblock/main.go: the client's command line and the request that it builds.
pub mod Arguments
pub mod Requests
pub mod Accepted
pub mod Effects
pub mod Output
pub mod Main
pub mod Ends
pub mod Blocked
pub mod Printed
pub mod Lines
pub mod Tests
mod EffectsRuns
mod BlockedRuns
