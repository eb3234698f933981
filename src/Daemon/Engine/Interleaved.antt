-- ===== src/Daemon/Engine/Interleaved.antt =====
-- The engine under concurrent requests. The engine's mutex excludes two runs of a locked phase of
-- `Rebuild`, but no change of the store, whose own mutex is held for one `Mutate`, `Load` or
-- `ListUserUIDs` at a time: a change may come between any two reads of `loadAll`, and between the
-- last of them and `Apply`.
pub mod Applied
use request_blocker.Shared.{ℕ, ◌+◌, ◌≡◌, List, [], ◌∷◌, Bool, Map, insert, ok}
use request_blocker.Text.{int_eq, Text, ℤ}
use request_blocker.Store.Scope.{Scope, global_scope, user_scope}
use request_blocker.Store.BlockList
use request_blocker.Store.BlockList.{BlockList}
use request_blocker.Store.Disk.{Disk, Io, load, mutate, list_user_uids}
use request_blocker.Resolver.{Outcomes}
use request_blocker.Backend.Interface.{Backend}
use request_blocker.Daemon.Engine.Tables.{World, cache_results}
use request_blocker.Daemon.Engine.Defs.{Engine, build_and_apply, add_to, remove_from}

-- Who holds the engine's mutex: nobody, or a locked phase that has read so much of the store, the
-- uids that it has still to load among it.
pub data Holder : Type 0 where
  nobody locked : Holder
  read_global : BlockList → Holder
  reading : BlockList → List ℤ → Map ℤ BlockList → Holder

module _ (be : Backend) (ttl : ℕ) where
  -- `since` is what the store was since the mutex was last taken, the latest first.
  pub record System : Type 0 where
    pub engine : Engine be ttl
    pub holder : Holder
    pub since : List Disk

  abbrev pub changed : Disk → System → System
  changed d s = record {
    engine = record (s.engine) { disk = d };
    holder = s.holder;
    since = d ∷ s.since;
  }

  abbrev pub with_holder : Holder → System → System
  with_holder h s = record { engine = s.engine; holder = h; since = s.since }

  -- One step of any request or refresh. A phase may let go of the mutex at any time, which covers
  -- an error of the store and a first phase that goes on to resolve.
  pub data Step (s : System) : System → Type 0 where
    adding :
        (io : Io) (t : Scope) (domains ips : List Text)
        → Step s (changed (mutate io t (add_to be ttl domains ips) s.engine.disk).0 s)
    removing :
        (io : Io) (t : Scope) (domains ips : List Text)
        → Step s (changed (mutate io t (remove_from be ttl domains ips) s.engine.disk).0 s)
    lock_first :
        s.holder ≡ nobody
        → Step s (record { engine = s.engine; holder = locked; since = s.engine.disk ∷ [] })
    lock_second :
        (w : World) (o : Outcomes)
        → s.holder ≡ nobody
        → Step s (record {
          engine = record (s.engine) {
            cache = cache_results (w.now + ttl) o.results s.engine.cache;
          };
          holder = locked;
          since = s.engine.disk ∷ [];
        })
    load_global :
        (bl : BlockList)
        → s.holder ≡ locked
        → load global_scope s.engine.disk ≡ ok bl
        → Step s (with_holder (read_global bl) s)
    list_uids :
        (bl : BlockList) (readable : Bool) (uids : List ℤ)
        → s.holder ≡ read_global bl
        → list_user_uids readable s.engine.disk ≡ ok uids
        → Step s (with_holder (reading bl uids []) s)
    load_user :
        (bl own : BlockList) (u : ℤ) (us : List ℤ) (m : Map ℤ BlockList)
        → s.holder ≡ reading bl (u ∷ us) m
        → load (user_scope u) s.engine.disk ≡ ok own
        → Step s (with_holder (reading bl us (insert u own m)) s)
    unlock : Step s (with_holder nobody s)
    applying :
        (w : World) (bl : BlockList) (m : Map ℤ BlockList)
        → s.holder ≡ reading bl [] m
        → Step s (record {
          engine = (build_and_apply be ttl w bl m s.engine).0;
          holder = nobody;
          since = s.since;
        })

  abbrev pub quiet : Engine be ttl → System
  quiet e = record { engine = e; holder = nobody; since = e.disk ∷ [] }

  pub data Reaches (a : System) : System → Type 0 where
    here : Reaches a a
    after : {b c : System} → Reaches a b → Step b c → Reaches a c
