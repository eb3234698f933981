-- ===== src/Daemon/Start/Life.antt =====
-- From the start of the daemon on: what the firewall does while it serves.
use request_blocker.Shared.{
  ℕ, Bool, true, false, Option, none, some, List, [], ◌∷◌, ◌++◌, Result, ok, err, ◌≡◌, ◌∙◌, refl,
  sym, subst, ap, list_eq, nat_eq,
}
use request_blocker.Text.{Text, ℤ, IsInt64}
use request_blocker.Store.Disk.{base_dir, Disk, new_store}
use request_blocker.Resolver.{Dns}
use request_blocker.Backend.State.{Family}
use request_blocker.Backend.Interface.{Backend}
use request_blocker.Daemon.Config.{Config, Flags, default_config, parse_flags}
use request_blocker.Daemon.Engine.{
  World, resolve_all, resolve_expired, EngineError, Engine, rebuild,
}
use request_blocker.Daemon.Engine.Rebuild.{IsSound, rebuild_keeps, Rebuilt, rebuild-Rebuilt}
use request_blocker.Daemon.Engine.Entries.Firewall.{enforced}
use request_blocker.Daemon.Engine.Refresh.{new_engine}
use request_blocker.Daemon.Server.{Server, serve, serve-IsSound}
use request_blocker.Daemon.Start.{
  Outside, engine_ttl, flags_ttl, Started, exited, serving, Event, connected, refreshed, reconciled,
  opened, begin, start, live_through,
}

module _ (be : Backend) where
  -- What a start leaves.
  abbrev IsExact : (ttl : ℕ) → Started be ttl → Type 0
  IsExact ttl (exited x disk live) = Unit
  IsExact ttl (serving s) =
      IsSound be ttl s.engine
      × ((u : ℤ) (f : Family) (x : Text)
          → IsInt64 u
          → be.drops s.engine.live u f x ≡ enforced be ttl s.engine u f x)

  rebuilt-enforced :
      (ttl : ℕ) (e e' : Engine be ttl) (u : ℤ) (f : Family) (x : Text)
      → e'.disk ≡ e.disk
      → enforced be ttl (record e' { disk = e.disk }) u f x ≡ enforced be ttl e' u f x
  rebuilt-enforced ttl e e' u f x same =
      ap (λ d. enforced be ttl (record e' { disk = d }) u f x) (sym same)

  reconciled-IsExact :
      (cfg : Config) (out : Outside) (e : Engine be (engine_ttl cfg))
      → IsSound be (engine_ttl cfg) e
      → IsExact (engine_ttl cfg) (
          reconciled be cfg
            (rebuild be (engine_ttl cfg) out.first out.second out.dns resolve_all e))
  reconciled-IsExact cfg out e sound =
      go (rebuild be ttl out.first out.second out.dns resolve_all e)
        (rebuild-Rebuilt be ttl out.first out.second out.dns resolve_all e)
    where
      ttl : ℕ
      ttl = engine_ttl cfg

      go :
          (r : Engine be ttl × Result EngineError (Unit {0}))
          → Rebuilt be ttl e r
          → IsExact ttl (reconciled be cfg r)
      go (e', err x) p = tt
      go (e', ok _) p = (
        p.sound sound,
        λ u f x h. p.exact sound refl u f x h ∙ rebuilt-enforced ttl e e' u f x p.disk,
      )

  opened-IsExact :
      (cfg : Config) (out : Outside) (live : be.Live) (disk : Disk) (o : Option Disk)
      → be.IsSound live
      → IsExact (engine_ttl cfg) (opened be cfg out live disk o)
  opened-IsExact cfg out live disk none sound = tt
  opened-IsExact cfg out live disk (some disk') sound =
      reconciled-IsExact cfg out (new_engine be (engine_ttl cfg) disk' live) sound

  begin-IsExact :
      (cfg : Config) (out : Outside) (disk : Disk) (live : be.Live) (teardown : Bool)
      → be.IsSound live
      → IsExact (engine_ttl cfg) (begin be cfg out disk live teardown)
  unfolding begin
  begin-IsExact cfg out disk live true sound = tt
  begin-IsExact cfg out disk live false sound =
      opened-IsExact cfg out live disk (new_store out.made_dir disk) sound

  start-IsExact :
      (flags : Flags) (out : Outside) (disks : Text → Disk) (k : be.Kernel)
      → IsExact (engine_ttl (parse_flags flags default_config)) (start be flags out disks k)
  unfolding start
  start-IsExact flags out disks k =
      begin-IsExact (parse_flags flags default_config) out
        (disks (base_dir (parse_flags flags default_config).store_dir)) (be.new k) flags.teardown
        (be.new_sound k)

  -- Whatever the firewall was before, once the daemon has started and serves, the firewall drops
  -- for every uid of 64 bits exactly what the stored lists block by the engine's cache.
  pub start_exact :
      (flags : Flags) (out : Outside) (disks : Text → Disk) (k : be.Kernel)
      (s : Server be (flags_ttl flags)) (u : ℤ) (f : Family) (x : Text)
      → start be flags out disks k ≡ serving s
      → IsInt64 u
      → be.drops s.engine.live u f x ≡ enforced be (flags_ttl flags) s.engine u f x
  start_exact flags out disks k s u f x started h =
      (subst (IsExact (flags_ttl flags)) started (start-IsExact flags out disks k)).1 u f x h

  live_through-IsSound :
      (ttl : ℕ) (es : List Event) (s : Server be ttl)
      → IsSound be ttl s.engine
      → IsSound be ttl (live_through be ttl es s).engine
  unfolding live_through
  live_through-IsSound ttl [] s sound = sound
  live_through-IsSound ttl (connected c ∷ es) s sound =
      live_through-IsSound ttl es (serve be ttl c s).0 (serve-IsSound be ttl c s sound)
  live_through-IsSound ttl (refreshed w w' dns ∷ es) s sound =
      live_through-IsSound ttl es _ (rebuild_keeps be ttl w w' dns resolve_expired s.engine sound).1

  live_through-append :
      (ttl : ℕ) (es fs : List Event) (s : Server be ttl)
      → live_through be ttl (es ++ fs) s ≡ live_through be ttl fs (live_through be ttl es s)
  unfolding live_through
  live_through-append ttl [] fs s = refl
  live_through-append ttl (connected c ∷ es) fs s = live_through-append ttl es fs _
  live_through-append ttl (refreshed w w' dns ∷ es) fs s = live_through-append ttl es fs _

  -- In the life of the daemon, from a start on any firewall through any sequence of connections
  -- and refreshes, whether those succeed or not, whenever a refresh succeeds the firewall drops
  -- for every uid of 64 bits exactly what the lists that are then stored block: no failure before
  -- it leaves a trace.
  pub refresh_exact :
      (flags : Flags) (out : Outside) (disks : Text → Disk) (k : be.Kernel)
      (s : Server be (flags_ttl flags)) (es : List Event) (w w' : World) (dns : Dns) (u : ℤ)
      (f : Family) (x : Text)
      → start be flags out disks k ≡ serving s
      → (rebuild be
          (flags_ttl flags)
          w
          w'
          dns
          resolve_expired
          (live_through be (flags_ttl flags) es s).engine).1
        ≡ ok tt
      → IsInt64 u
      → let after = (live_through be (flags_ttl flags) (es ++ refreshed w w' dns ∷ []) s).engine in
        be.drops after.live u f x ≡ enforced be (flags_ttl flags) after u f x
  unfolding live_through
  refresh_exact flags out disks k s es w w' dns u f x started done h =
      let ttl = flags_ttl flags in
      let sound =
        live_through-IsSound ttl es s
          (subst (IsExact ttl) started (start-IsExact flags out disks k)).0 in
      let e : Engine be ttl = (live_through be ttl es s).engine in
      let p = rebuild-Rebuilt be ttl w w' dns resolve_expired e in
      subst (λ (t : Server be ttl). be.drops t.engine.live u f x ≡ enforced be ttl t.engine u f x)
        (sym (live_through-append ttl es (refreshed w w' dns ∷ []) s))
        (p.exact sound done u f x h
          ∙ rebuilt-enforced ttl e (rebuild be ttl w w' dns resolve_expired e).0 u f x p.disk)
