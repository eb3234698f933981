-- ===== src/Daemon/Engine/Defs.antt =====
-- The engine's state and operations.
use request_blocker.Shared.{
  ℕ, ◌+◌, List, list_eq, nat_eq, ◌==◌, length, Map, keys, Result, ok, err, if◌then◌else◌,
}
use request_blocker.Text.{Text, ℤ, int_eq}
use request_blocker.Store.Scope.{Scope}
use request_blocker.Store.BlockList.{BlockList, add_domains, add_ips, remove_domains, remove_ips}
use request_blocker.Store.Disk.{Disk, StoreError, Io, mutate}
use request_blocker.Resolver.{Dns, Outcomes, resolve_many}
use request_blocker.Backend.Interface.{Backend}
use request_blocker.Daemon.Engine.Tables.{
  ResolveMode, Cache, World, EngineError, load_all, wanted_domains, domains_to_resolve, prune,
  desired, cache_results, resolve_missing, store_failed, apply_failed,
}

module _ (be : Backend) (ttl : ℕ) where
  open be use {Live, apply}

  pub record Engine : Type 0 where
    pub disk : Disk
    pub cache : Cache
    pub live : Live

  unfoldable pub build_and_apply :
      World → BlockList → Map ℤ BlockList → Engine → Engine × Result EngineError (Unit {0})
  unfolding desired prune wanted_domains
  build_and_apply w global lists e =
      let cache' = prune (wanted_domains global lists) (keys e.cache) e.cache in
      let (live', done) = apply (desired w cache' global lists) e.live in
      (record e { cache = cache'; live = live' }, if done then ok tt else err apply_failed)

  -- What the first locked phase of `Rebuild` comes to: the end, or domains to resolve.
  pub data Phase : Type 0 where
    finished : Engine → Result EngineError (Unit {0}) → Phase
    resolving : List Text → Phase

  abbrev pub finish : Engine × Result EngineError (Unit {0}) → Phase
  finish (e, r) = finished e r

  unfoldable pub start_with :
      World → ResolveMode → Engine → Result StoreError (BlockList × Map ℤ BlockList) → Phase
  unfolding build_and_apply domains_to_resolve wanted_domains
  start_with w mode e (err x) = finished e (err (store_failed x))
  start_with w mode e (ok (global, lists)) =
      let to_resolve = domains_to_resolve w (wanted_domains global lists) mode e.cache in
      if length to_resolve == 0
      then finish (build_and_apply w global lists e)
      else resolving to_resolve

  unfoldable pub rebuild_start : World → ResolveMode → Engine → Phase
  unfolding start_with load_all
  rebuild_start w mode e = start_with w mode e (load_all w e.disk)

  unfoldable pub finish_with :
      World
      → Engine
      → Result StoreError (BlockList × Map ℤ BlockList)
      → Engine × Result EngineError (Unit {0})
  unfolding build_and_apply
  finish_with w e (err x) = (e, err (store_failed x))
  finish_with w e (ok (global, lists)) = build_and_apply w global lists e

  -- The second locked phase: the results go to the cache, and the store is read again.
  unfoldable pub rebuild_finish : World → Outcomes → Engine → Engine × Result EngineError (Unit {0})
  unfolding finish_with load_all cache_results
  rebuild_finish w o e =
      let e' = record e { cache = cache_results (w.now + ttl) o.results e.cache } in
      finish_with w e' (load_all w e.disk)

  -- `Rebuild` with nothing in between its phases. The worlds are those of the two phases.
  unfoldable pub continue : World → Dns → Engine → Phase → Engine × Result EngineError (Unit {0})
  unfolding rebuild_finish
  continue w' dns e (finished e' r) = (e', r)
  continue w' dns e (resolving ds) = rebuild_finish w' (resolve_many dns ds) e

  unfoldable pub rebuild :
      World → World → Dns → ResolveMode → Engine → Engine × Result EngineError (Unit {0})
  unfolding continue rebuild_start
  rebuild w w' dns mode e = continue w' dns e (rebuild_start w mode e)

  -- `AddEntries` and `RemoveEntries`: the counts, or the error of the store or of `Rebuild`.
  abbrev pub add_to : List Text → List Text → BlockList → Result StoreError (BlockList × (ℕ × ℕ))
  add_to domains ips bl =
      let (bl', n) = add_domains domains bl in let (bl'', k) = add_ips ips bl' in ok (bl'', (n, k))

  abbrev pub remove_from :
      List Text → List Text → BlockList → Result StoreError (BlockList × (ℕ × ℕ))
  remove_from domains ips bl =
      let (bl', n) = remove_domains domains bl in
      let (bl'', k) = remove_ips ips bl' in ok (bl'', (n, k))

  abbrev pub counted :
      ℕ × ℕ → Engine × Result EngineError (Unit {0}) → Engine × Result EngineError (ℕ × ℕ)
  counted n (e, ok _) = (e, ok n)
  counted n (e, err x) = (e, err x)

  abbrev pub rebuilt :
      World → World → Dns → Engine → Result StoreError (ℕ × ℕ) → Engine × Result EngineError (ℕ × ℕ)
  rebuilt w w' dns e (err x) = (e, err (store_failed x))
  rebuilt w w' dns e (ok n) = counted n (rebuild w w' dns resolve_missing e)

  unfoldable pub add_entries :
      Io
      → World
      → World
      → Dns
      → Scope
      → List Text
      → List Text
      → Engine
      → Engine × Result EngineError (ℕ × ℕ)
  unfolding rebuild
  add_entries io w w' dns scope domains ips e =
      let (disk', r) = mutate io scope (add_to domains ips) e.disk in
      rebuilt w w' dns (record e { disk = disk' }) r

  unfoldable pub remove_entries :
      Io
      → World
      → World
      → Dns
      → Scope
      → List Text
      → List Text
      → Engine
      → Engine × Result EngineError (ℕ × ℕ)
  unfolding rebuild
  remove_entries io w w' dns scope domains ips e =
      let (disk', r) = mutate io scope (remove_from domains ips) e.disk in
      rebuilt w w' dns (record e { disk = disk' }) r
