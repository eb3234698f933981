-- ===== src/Daemon/Engine/Refresh.antt =====
-- `NewEngine` and `RefreshLoop` of cmd/webblockd/engine.go.
use request_blocker.Shared.{ℕ, zero, suc, List, [], ◌∷◌}
use request_blocker.Text.{ℤ, pos, negsuc}
use request_blocker.Store.Disk.{Disk}
use request_blocker.Resolver.{Dns}
use request_blocker.Backend.Interface.{Backend}
use request_blocker.Daemon.Engine.Tables.{World, resolve_expired}
use request_blocker.Daemon.Engine.Defs.{Engine, rebuild}

-- A number that is not positive is replaced by a default.
unfoldable pub positive_or : ℕ → ℤ → ℕ
positive_or default (pos zero) = default
positive_or default (pos (suc n)) = suc n
positive_or default (negsuc n) = default

-- One turn of the loop's `select`: the context is done, or the ticker fires.
pub data Tick : Type 0 where
  cancelled : Tick
  fired : World → World → Dns → Tick

module _ (be : Backend) (ttl : ℕ) where
  abbrev pub new_engine : Disk → be.Live → Engine be ttl
  new_engine disk live = record { disk = disk; cache = []; live = live }

  -- A `Rebuild` that fails is logged.
  unfoldable pub refresh_loop : List Tick → Engine be ttl → Engine be ttl
  refresh_loop [] e = e
  refresh_loop (cancelled ∷ ticks) e = e
  refresh_loop (fired w w' dns ∷ ticks) e =
      refresh_loop ticks (rebuild be ttl w w' dns resolve_expired e).0
