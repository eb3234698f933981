-- ===== src/Daemon/Engine.antt =====
-- cmd/webblockd/engine.go: the store, the cache of resolved addresses and the backend.
mod Tables
mod Defs
pub mod Desired
pub mod Users
pub mod Cached
pub mod Loaded
pub mod Rebuild
pub mod Entries
pub mod Interleaved
pub mod Refresh
pub mod Refreshed
unfoldable pub use Tables.*
unfoldable pub use Defs.*
