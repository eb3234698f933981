-- ===== src/Daemon/Start.antt =====
-- `main` of cmd/webblockd/main.go: from the flags to a server, or to an exit; and what goes on
-- while the daemon serves.
pub mod Life
pub mod Stored
pub mod Foreign
use request_blocker.Shared.{
  ℕ, ◌*◌, Bool, true, false, Option, none, some, List, [], ◌∷◌, Result, ok, err, if◌then◌else◌,
}
use request_blocker.Store.Disk.{Disk, base_dir, new_store}
use request_blocker.Text.{Text}
use request_blocker.Resolver.{Dns}
use request_blocker.Backend.Interface.{Backend}
use request_blocker.Backend.Nft.Kernel.{NftTool}
use request_blocker.Backend.Iptables.Tool.{IptablesTool}
use request_blocker.Backend.Detect.{Probes, detect}
use request_blocker.Daemon.Config.{Config, default_config, Flags, parse_flags, minute}
use request_blocker.Daemon.Engine.{
  World, resolve_all, resolve_expired, EngineError, Engine, rebuild,
}
use request_blocker.Daemon.Engine.Refresh.{positive_or, new_engine}
use request_blocker.Daemon.Server.{Connection, Server, serve}
use request_blocker.Daemon.Server.Run.{RunError, new_server}

-- The messages of `logger.Fatalf`, which exits with status 1.
pub data Fatal : Type 0 where
  no_backend teardown_failed store_init_failed : Fatal
  reconcile_failed : EngineError → Fatal
  server_error : RunError → Fatal

-- What the start meets: whether the directory of the store can be made, the answers of DNS, and
-- the worlds of the two phases of the first `Rebuild`.
pub record Outside : Type 0 where
  pub made_dir : Bool
  pub dns : Dns
  pub first : World
  pub second : World

-- The `ttl` that `NewEngine` takes from the configuration.
abbrev pub engine_ttl : Config → ℕ
engine_ttl cfg = positive_or (15 * minute) cfg.dns_cache_ttl

abbrev pub flags_ttl : Flags → ℕ
flags_ttl flags = engine_ttl (parse_flags flags default_config)

-- `main` up to `srv.Run`, on the backend that was detected: an exit, with an error or after a
-- teardown, or a server that is about to run.
pub data Started (be : Backend) (ttl : ℕ) : Type 0 where
  exited : Option Fatal → Disk → be.Live → Started be ttl
  serving : Server be ttl → Started be ttl

-- One event while the daemon runs: a connection that `Run` accepts, or a turn of `RefreshLoop`.
pub data Event : Type 0 where
  connected : Connection → Event
  refreshed : World → World → Dns → Event

module _ (be : Backend) where
  abbrev pub reconciled :
      (cfg : Config)
      → Engine be (engine_ttl cfg) × Result EngineError (Unit {0})
      → Started be (engine_ttl cfg)
  reconciled cfg (e, err x) = exited (some (reconcile_failed x)) e.disk e.live
  reconciled cfg (e, ok _) = serving (new_server be (engine_ttl cfg) cfg e)

  abbrev pub opened :
      (cfg : Config) → Outside → be.Live → Disk → Option Disk → Started be (engine_ttl cfg)
  opened cfg out live disk none = exited (some store_init_failed) disk live
  opened cfg out live disk (some disk') =
      let ttl = engine_ttl cfg in
      reconciled cfg
        (rebuild be ttl out.first out.second out.dns resolve_all (new_engine be ttl disk' live))

  abbrev pub torn_down : (cfg : Config) → Disk → be.Live × Bool → Started be (engine_ttl cfg)
  torn_down cfg disk (live, done) = exited (if done then none else some teardown_failed) disk live

  -- The flag for a teardown.
  unfoldable pub begin :
      (cfg : Config) → Outside → Disk → be.Live → Bool → Started be (engine_ttl cfg)
  unfolding new_store
  begin cfg out disk live true = torn_down cfg disk (be.teardown live)
  begin cfg out disk live false = opened cfg out live disk (new_store out.made_dir disk)

  -- `disks` is what each directory of the file system would hold as a store.
  unfoldable pub start :
      (flags : Flags) → Outside → (Text → Disk) → be.Kernel → Started be (flags_ttl flags)
  unfolding begin base_dir
  start flags out disks kernel =
      let cfg = parse_flags flags default_config in
      begin cfg out (disks (base_dir cfg.store_dir)) (be.new kernel) flags.teardown

module _ (be : Backend) (ttl : ℕ) where
  -- The accept loop and the refresh loop side by side.
  unfoldable pub live_through : List Event → Server be ttl → Server be ttl
  live_through [] s = s
  live_through (connected c ∷ es) s = live_through es (serve be ttl c s).0
  live_through (refreshed w w' dns ∷ es) s =
      live_through es (record s { engine = (rebuild be ttl w w' dns resolve_expired s.engine).0 })

-- How `main` ends after `srv.Run`: it still runs, it ends, or it ends with an error.
pub exit_of : Option (Result RunError (Unit {0})) → Option (Option Fatal)
exit_of none = none
exit_of (some (ok _)) = some none
exit_of (some (err x)) = some (some (server_error x))

pub data Main (flags : Flags) : Type 1 where
  failed : Fatal → Main flags
  started : (be : Backend) → Started be (flags_ttl flags) → Main flags

-- `main` up to `srv.Run`; `kernel` is the system as each backend finds it.
pub main :
    NftTool
    → IptablesTool
    → Probes
    → ((be : Backend) → be.Kernel)
    → (flags : Flags) → Outside
    → (Text → Disk)
    → Main flags
unfolding start
main nft iptables probes kernel flags out disks = elim (detect nft iptables probes) [
  | none ↦ failed no_backend
  | some be ↦ started be (start be flags out disks (kernel be))
]
