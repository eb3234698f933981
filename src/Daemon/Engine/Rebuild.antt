-- ===== src/Daemon/Engine/Rebuild.antt =====
-- `Rebuild`: the firewall after it, and what it leaves alone.
use request_blocker.Shared.{
  ℕ, ◌+◌, ◌||◌, none, [], ◌≡◌, subst, ◌∙◌, refl, arith, list_eq, nat_eq, ◌==◌, length, contains,
  Map, IsMap, keys, lookup, Result, ok, err, if◌then◌else◌, Bool-cases, inl, inr,
}
use request_blocker.Text.{Text, ℤ, int_eq, IsInt64}
use request_blocker.Store.Scope.{global_scope, user_scope}
use request_blocker.Store.BlockList.{BlockList}
use request_blocker.Store.Disk.{StoreError}
use request_blocker.Store.Disk.Users.{stored}
use request_blocker.Resolver.{Dns, Outcomes, resolve_many}
use request_blocker.Backend.State.{Family, blocked}
use request_blocker.Backend.Interface.{Backend}
use request_blocker.Daemon.Engine.Tables.{
  World, ResolveMode, EngineError, store_failed, Cache, wanted_domains, prune, desired, load_all,
  domains_to_resolve, cache_results,
}
use request_blocker.Daemon.Engine.Defs.{
  Phase, finished, resolving, finish, Engine, build_and_apply, start_with, rebuild_start,
  finish_with, rebuild_finish, continue, rebuild,
}
use request_blocker.Daemon.Engine.Desired.{blocks, contains-ip_set_for}
use request_blocker.Daemon.Engine.Users.{user_set-desired, user_sets-IsMap}
use request_blocker.Daemon.Engine.Loaded.{or_empty, load_all-stored}
use request_blocker.Daemon.Engine.Cached.{entry_or, lookup-prune, lookup-cache_results}

module _ (be : Backend) (ttl : ℕ) where
  -- The engine's firewall is true to its backend's books.
  abbrev pub IsSound : Engine be ttl → Type 0
  IsSound e = be.IsSound e.live

  desired-IsMap :
      (w : World) (cache : Cache) (global : BlockList) (lists : Map ℤ BlockList)
      → IsMap (desired w cache global lists).per_user
  unfolding desired
  desired-IsMap w cache global lists = user_sets-IsMap w cache lists [] tt

  desired-blocked :
      (w : World) (cache : Cache) (global : BlockList) (lists : Map ℤ BlockList) (u : ℤ)
      (f : Family) (x : Text)
      → IsMap lists
      → blocked (desired w cache global lists) u f x
        ≡ (blocks cache global f x || blocks cache (or_empty (lookup u lists)) f x)
  unfolding desired
  desired-blocked w cache global lists u f x h =
      ground (arith, contains-ip_set_for w cache global f x, user_set-desired w cache lists u f x h)

  -- What one run of Rebuild, or of a part of it, leaves: the store as it was, a firewall true to
  -- its books and, after a success, exactly the blocks of the stored lists.
  pub record Rebuilt (e : Engine be ttl) (r : Engine be ttl × Result EngineError (Unit {0}))
      : Type 0 where
    pub disk : r.0.disk ≡ e.disk
    pub sound : IsSound e → IsSound r.0
    pub exact :
        IsSound e
        → r.1 ≡ ok tt
        → (u : ℤ) (f : Family) (x : Text) → IsInt64 u
        → be.drops r.0.live u f x ≡ (
            blocks r.0.cache (stored global_scope e.disk) f x
            || blocks r.0.cache (stored (user_scope u) e.disk) f x)

  pub build_and_apply-disk :
      (w : World) (global : BlockList) (lists : Map ℤ BlockList) (e : Engine be ttl)
      → (build_and_apply be ttl w global lists e).0.disk ≡ e.disk
  unfolding build_and_apply
  build_and_apply-disk w global lists e = refl

  -- `Apply` on whatever lists were read.
  pub build_and_apply-IsSound :
      (w : World) (global : BlockList) (lists : Map ℤ BlockList) (e : Engine be ttl)
      → IsSound e
      → IsSound (build_and_apply be ttl w global lists e).0
  unfolding build_and_apply
  build_and_apply-IsSound w global lists e s =
      let cache' = prune (wanted_domains global lists) (keys e.cache) e.cache in
      be.apply_sound (desired w cache' global lists) e.live (desired-IsMap w cache' global lists) s

  pub build_and_apply_exact :
      (w : World) (global : BlockList) (lists : Map ℤ BlockList) (e : Engine be ttl) (u : ℤ)
      (f : Family) (x : Text)
      → IsMap lists
      → IsSound e
      → (build_and_apply be ttl w global lists e).1 ≡ ok tt
      → be.drops (build_and_apply be ttl w global lists e).0.live u f x ≡ (
          blocks (build_and_apply be ttl w global lists e).0.cache global f x
          || blocks
              (build_and_apply be ttl w global lists e).0.cache
              (or_empty (lookup u lists))
              f
              x)
  unfolding build_and_apply
  build_and_apply_exact w global lists e u f x is_map s done =
      let cache' = prune (wanted_domains global lists) (keys e.cache) e.cache in
      be.apply_exact (desired w cache' global lists) e.live (desired-IsMap w cache' global lists) s
        (ground arith) u f x
      ∙ desired-blocked w cache' global lists u f x is_map

  build_and_apply-Rebuilt :
      (w : World) (global : BlockList) (lists : Map ℤ BlockList) (e : Engine be ttl)
      → load_all w e.disk ≡ ok (global, lists)
      → Rebuilt e (build_and_apply be ttl w global lists e)
  build_and_apply-Rebuilt w global lists e loaded = record {
    disk = build_and_apply-disk w global lists e;
    sound = build_and_apply-IsSound w global lists e;
    exact = λ s done u f x h.
        let (g, is_map, own) = load_all-stored w e.disk global lists u h loaded in
        build_and_apply_exact w global lists e u f x is_map s done ∙ ground (arith, g, own);
  }

  failed-Rebuilt :
      (e : Engine be ttl) (cache : Cache) (x : EngineError)
      → Rebuilt e (record e { cache = cache }, err x)
  failed-Rebuilt e cache x = record {
    disk = refl;
    sound = λ s. s;
    exact = λ s done u f y h. absurd (ground arith);
  }

  finish_with-Rebuilt :
      (w : World) (e : Engine be ttl) (cache : Cache)
      (r : Result StoreError (BlockList × Map ℤ BlockList))
      → load_all w e.disk ≡ r
      → Rebuilt e (finish_with be ttl w (record e { cache = cache }) r)
  unfolding finish_with
  finish_with-Rebuilt w e cache (err x) loaded = failed-Rebuilt e cache (store_failed x)
  finish_with-Rebuilt w e cache (ok (global, lists)) loaded =
      let p = build_and_apply-Rebuilt w global lists (record e { cache = cache }) loaded in
      record { disk = p.disk; sound = p.sound; exact = p.exact }

  -- The second phase, on whatever the store holds when it runs.
  pub rebuild_finish-Rebuilt :
      (w : World) (o : Outcomes) (e : Engine be ttl) → Rebuilt e (rebuild_finish be ttl w o e)
  unfolding rebuild_finish
  rebuild_finish-Rebuilt w o e =
      finish_with-Rebuilt w e (cache_results (w.now + ttl) o.results e.cache) (load_all w e.disk)
        refl

  abbrev Ended : Engine be ttl → Phase be ttl → Type 0
  Ended e (finished e' r) = Rebuilt e (e', r)
  Ended e (resolving ds) = Unit {0}

  finish-Ended :
      (e : Engine be ttl) (r : Engine be ttl × Result EngineError (Unit {0}))
      → Rebuilt e r
      → Ended e (finish be ttl r)
  finish-Ended e (e', r) h = h

  start_with-Ended :
      (w : World) (mode : ResolveMode) (e : Engine be ttl)
      (r : Result StoreError (BlockList × Map ℤ BlockList))
      → load_all w e.disk ≡ r
      → Ended e (start_with be ttl w mode e r)
  unfolding start_with
  start_with-Ended w mode e (err x) loaded = failed-Rebuilt e e.cache (store_failed x)
  start_with-Ended w mode e (ok (global, lists)) loaded =
      elim (Bool-cases
        (length (domains_to_resolve w (wanted_domains global lists) mode e.cache) == 0)) [
          | inl none_left ↦ rw none_left (
              finish-Ended e (build_and_apply be ttl w global lists e)
                (build_and_apply-Rebuilt w global lists e loaded))
          | inr some_left ↦ rw some_left tt
        ]

  -- A first phase that ends the `Rebuild`.
  pub rebuild_start-Rebuilt :
      (w : World) (mode : ResolveMode) (e e' : Engine be ttl) (done : Result EngineError (Unit {0}))
      → rebuild_start be ttl w mode e ≡ finished e' done
      → Rebuilt e (e', done)
  unfolding rebuild_start
  rebuild_start-Rebuilt w mode e e' done h =
      subst (Ended e) h (start_with-Ended w mode e (load_all w e.disk) refl)

  continue-Rebuilt :
      (w w' : World) (dns : Dns) (mode : ResolveMode) (e : Engine be ttl)
      (r : Result StoreError (BlockList × Map ℤ BlockList))
      → load_all w e.disk ≡ r
      → Rebuilt e (continue be ttl w' dns e (start_with be ttl w mode e r))
  unfolding continue start_with
  continue-Rebuilt w w' dns mode e (err x) loaded = failed-Rebuilt e e.cache (store_failed x)
  continue-Rebuilt w w' dns mode e (ok (global, lists)) loaded =
      let to_resolve = domains_to_resolve w (wanted_domains global lists) mode e.cache in
      elim (Bool-cases (length to_resolve == 0)) [
        | inl none_left ↦ rw none_left (build_and_apply-Rebuilt w global lists e loaded)
        | inr some_left ↦ rw some_left (rebuild_finish-Rebuilt w' (resolve_many dns to_resolve) e)
      ]

  -- All of it for `Rebuild` as a whole.
  pub rebuild-Rebuilt :
      (w w' : World) (dns : Dns) (mode : ResolveMode) (e : Engine be ttl)
      → Rebuilt e (rebuild be ttl w w' dns mode e)
  unfolding rebuild rebuild_start
  rebuild-Rebuilt w w' dns mode e = continue-Rebuilt w w' dns mode e (load_all w e.disk) refl

  -- Whatever happens in it, `Rebuild` leaves the store as it was, and a firewall that is true to
  -- its backend's books true to them.
  pub rebuild_keeps :
      (w w' : World) (dns : Dns) (mode : ResolveMode) (e : Engine be ttl)
      → IsSound e
      → ((rebuild be ttl w w' dns mode e).0.disk ≡ e.disk)
        × IsSound (rebuild be ttl w w' dns mode e).0
  rebuild_keeps w w' dns mode e s = let p = rebuild-Rebuilt w w' dns mode e in (p.disk, p.sound s)

  -- When `Rebuild` succeeds on an engine whose firewall is true to its books, the firewall drops
  -- for every uid of 64 bits exactly what the stored global list and the uid's own stored list
  -- block: the addresses they list, and those their domains have in the resulting cache.
  pub rebuild_exact :
      (w w' : World) (dns : Dns) (mode : ResolveMode) (e : Engine be ttl) (u : ℤ) (f : Family)
      (x : Text)
      → IsSound e
      → (rebuild be ttl w w' dns mode e).1 ≡ ok tt
      → IsInt64 u
      → be.drops (rebuild be ttl w w' dns mode e).0.live u f x ≡ (
          blocks (rebuild be ttl w w' dns mode e).0.cache (stored global_scope e.disk) f x
          || blocks (rebuild be ttl w w' dns mode e).0.cache (stored (user_scope u) e.disk) f x)
  rebuild_exact w w' dns mode e u f x s done h =
      (rebuild-Rebuilt w w' dns mode e).exact s done u f x h

  -- After the second phase of `Rebuild` on a store that loads, a domain of the stored lists has
  -- its new result or, where it has none, the entry it had before; a domain of no list has no
  -- entry.
  pub lookup-rebuild_finish :
      (w : World) (o : Outcomes) (e : Engine be ttl) (global : BlockList) (lists : Map ℤ BlockList)
      (d : Text)
      → IsMap o.results
      → load_all w e.disk ≡ ok (global, lists)
      → lookup d (rebuild_finish be ttl w o e).0.cache ≡ (
          if contains (wanted_domains global lists) d
          then entry_or (w.now + ttl) (lookup d o.results) (lookup d e.cache)
          else none)
  unfolding rebuild_finish finish_with build_and_apply
  lookup-rebuild_finish w o e global lists d is_map loaded = rw loaded (
      lookup-prune (wanted_domains global lists) (cache_results (w.now + ttl) o.results e.cache) d
      ∙ ground (arith, lookup-cache_results (w.now + ttl) o.results e.cache d is_map))
