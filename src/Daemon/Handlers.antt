-- ===== src/Daemon/Handlers.antt =====
-- cmd/webblockd/handlers.go and dispatch.go: what the daemon does with a request.
mod Inputs
mod Defs
pub mod Validated
unfoldable pub use Inputs.*
unfoldable pub use Defs.*
