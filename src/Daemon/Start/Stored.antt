-- ===== src/Daemon/Start/Stored.antt =====
-- A start leaves the stored lists alone, whatever comes of it.
use request_blocker.Shared.{
  ℕ, Bool, true, false, ◌≡◌, ◌∙◌, refl, ap, Result, ok, err, Option-cases, inl, inr,
}
use request_blocker.Text.{Text}
use request_blocker.Store.Scope.{Scope}
use request_blocker.Store.Disk.{Disk, base_dir, load, new_store}
use request_blocker.Store.Disk.Open.{new_store-load}
use request_blocker.Backend.Interface.{Backend}
use request_blocker.Daemon.Config.{Config, Flags, default_config, parse_flags}
use request_blocker.Daemon.Engine.{EngineError, Engine, rebuild, resolve_all}
use request_blocker.Daemon.Engine.Rebuild.{Rebuilt, rebuild-Rebuilt}
use request_blocker.Daemon.Engine.Refresh.{new_engine}
use request_blocker.Daemon.Start.{
  Outside, engine_ttl, Started, exited, serving, reconciled, begin, start,
}

module _ (be : Backend) where
  -- The disk after a start.
  unfoldable pub left_on_disk : {ttl : ℕ} → Started be ttl → Disk
  left_on_disk (exited x disk live) = disk
  left_on_disk (serving s) = s.engine.disk

  reconciled-disk :
      (cfg : Config) (e : Engine be (engine_ttl cfg))
      (r : Engine be (engine_ttl cfg) × Result EngineError (Unit {0}))
      → Rebuilt be (engine_ttl cfg) e r
      → left_on_disk (reconciled be cfg r) ≡ e.disk
  unfolding left_on_disk
  reconciled-disk cfg e (e', err x) p = p.disk
  reconciled-disk cfg e (e', ok _) p = p.disk

  begin-load :
      (cfg : Config) (out : Outside) (disk : Disk) (live : be.Live) (teardown : Bool) (t : Scope)
      → load t (left_on_disk (begin be cfg out disk live teardown)) ≡ load t disk
  unfolding begin left_on_disk
  begin-load cfg out disk live true t = refl
  begin-load cfg out disk live false t = elim (Option-cases (new_store out.made_dir disk)) [
    | inl failed ↦ rw failed refl
    | inr (disk', made) ↦
        let ttl = engine_ttl cfg in
        let e : Engine be ttl = new_engine be ttl disk' live in
        rw made (
          ap (load t) (
            reconciled-disk cfg e (rebuild be ttl out.first out.second out.dns resolve_all e)
              (rebuild-Rebuilt be ttl out.first out.second out.dns resolve_all e))
          ∙ new_store-load out.made_dir disk disk' t made)
  ]

  -- Every start of the daemon, with any flags, whether it serves, tears down or fails, leaves every
  -- scope's list in the directory that the flags name, or the default one, as it was.
  pub start-load :
      (flags : Flags) (out : Outside) (disks : Text → Disk) (k : be.Kernel) (t : Scope)
      → load t (left_on_disk (start be flags out disks k))
        ≡ load t (disks (base_dir (parse_flags flags default_config).store_dir))
  unfolding start
  start-load flags out disks k t =
      begin-load (parse_flags flags default_config) out
        (disks (base_dir (parse_flags flags default_config).store_dir)) (be.new k) flags.teardown t
