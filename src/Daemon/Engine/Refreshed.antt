-- ===== src/Daemon/Engine/Refreshed.antt =====
-- The cache after a whole `Rebuild`.
use request_blocker.Shared.{list_eq, nat_eq}
use request_blocker.Text.{Text, int_eq}
use request_blocker.Store.BlockList.{BlockList}
use request_blocker.Backend.Interface.{Backend}
use request_blocker.Daemon.Engine.Defs.{Engine}
