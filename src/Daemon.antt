-- ===== src/Daemon.antt =====
-- cmd/webblockd: the daemon's access control, engine, handlers and dispatcher.
pub mod Authz
pub mod Engine
pub mod Handlers
pub mod Access
pub mod Peer
pub mod Server
pub mod Config
pub mod Start
pub mod Tests
