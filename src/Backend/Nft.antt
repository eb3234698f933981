-- ===== src/Backend/Nft.antt =====
-- internal/backend/nft.go.
pub mod Commands
pub mod Kernel
pub mod Loops
pub mod Users
pub mod Deltas
pub mod Declared
pub mod Accepted
pub mod Scripted
pub mod Matching
pub mod Apply
pub mod Teardown
pub mod Tests
