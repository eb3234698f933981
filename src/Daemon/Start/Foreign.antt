-- ===== src/Daemon/Start/Foreign.antt =====
-- What the callers of a whole life of the daemon can change in the store.
use request_blocker.Shared.{ℕ, List, [], ◌∷◌, ◌≡◌, ◌∙◌, refl, ap, subst, All}
use request_blocker.Text.{Text, IsInt64}
use request_blocker.Store.Scope.{Scope}
use request_blocker.Store.Disk.{Disk, base_dir, load}
use request_blocker.Backend.Interface.{Backend}
use request_blocker.Daemon.Config.{Flags, default_config, parse_flags}
use request_blocker.Daemon.Engine.{resolve_expired}
use request_blocker.Daemon.Engine.Rebuild.{rebuild-Rebuilt}
use request_blocker.Daemon.Server.{IsForeign, Server, serve, serve-foreign}
use request_blocker.Daemon.Start.{
  Outside, flags_ttl, serving, Event, connected, refreshed, start, live_through,
}
use request_blocker.Daemon.Start.Stored.{left_on_disk, start-load}

-- A turn of the refresh loop is nobody's; a connection is as foreign as its caller.
abbrev pub IsForeignEvent : Scope → Event → Type 0
IsForeignEvent t (connected c) = IsForeign t c
IsForeignEvent t (refreshed w w' dns) = Unit

module _ (be : Backend) where
  live_through-foreign :
      (ttl : ℕ) (es : List Event) (s : Server be ttl) (t : Scope)
      → All (IsForeignEvent t) es
      → IsInt64 t.uid
      → load t (live_through be ttl es s).engine.disk ≡ load t s.engine.disk
  unfolding live_through
  live_through-foreign ttl [] s t _ h = refl
  live_through-foreign ttl (connected c ∷ es) s t (foreign, rest) h =
      live_through-foreign ttl es (serve be ttl c s).0 t rest h
      ∙ serve-foreign be ttl c s t foreign h
  live_through-foreign ttl (refreshed w w' dns ∷ es) s t (_, rest) h =
      live_through-foreign ttl es _ t rest h
      ∙ ap (load t) (rebuild-Rebuilt be ttl w w' dns resolve_expired s.engine).disk

  -- In the life of the daemon, from its start through any sequence of refreshes and of connections
  -- none of which is root's or the owner's, a stored list stays as it was before the start: the
  -- global list against all users, a user's list against all other users. Callers' uids fit in 32
  -- bits, the scope's in 64.
  pub life-foreign :
      (flags : Flags) (out : Outside) (disks : Text → Disk) (k : be.Kernel)
      (s : Server be (flags_ttl flags)) (es : List Event) (t : Scope)
      → start be flags out disks k ≡ serving s
      → All (IsForeignEvent t) es
      → IsInt64 t.uid
      → load t (live_through be (flags_ttl flags) es s).engine.disk
        ≡ load t (disks (base_dir (parse_flags flags default_config).store_dir))
  unfolding left_on_disk
  life-foreign flags out disks k s es t started foreign h =
      live_through-foreign (flags_ttl flags) es s t foreign h
      ∙ subst
          (λ r.
            load t (left_on_disk be r)
            ≡ load t (disks (base_dir (parse_flags flags default_config).store_dir)))
          started (start-load be flags out disks k t)
