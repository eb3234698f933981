-- ===== src/Daemon/Engine/Entries.antt =====
-- `AddEntries` and `RemoveEntries`: the store, and the firewall after them.
pub mod Firewall
use request_blocker.Shared.{
  ℕ, Bool, true, false, ◌||◌, ◌&&◌, not, none, List, [], ◌∷◌, ◌≡◌, ◌∙◌, ◌⊎◌, refl, ap, arith,
  list_eq, nat_eq, list_beq_iff, contains, contains-cons, contains-nil, Result, ok, err, inl, inr,
}
use request_blocker.Text.{Text, ℤ, int_eq, int_beq_iff, IsInt64}
use request_blocker.Store.Scope.{Scope, global_scope, user_scope}
use request_blocker.Store.BlockList.{BlockList, is_empty}
use request_blocker.Store.BlockList.Fields.{
  added_to, removed_from, contains-added_to, contains-removed_from,
}
use request_blocker.Store.Disk.{Disk, Io, StoreError, load, mutate}
use request_blocker.Store.Disk.Paths.{same_scope}
use request_blocker.Store.Disk.Save.{canonical, load-save}
use request_blocker.Store.Disk.Mutate.{mutate_fails, mutate_done, load-mutate_other}
use request_blocker.Store.Disk.Users.{stored}
use request_blocker.Validate.Address.{parse_ip}
use request_blocker.Resolver.{Dns}
use request_blocker.Backend.State.{Family}
use request_blocker.Backend.Interface.{Backend}
use request_blocker.Daemon.Engine.Tables.{World, resolve_missing, EngineError, store_failed}
use request_blocker.Daemon.Engine.Defs.{
  Engine, rebuild, add_to, remove_from, counted, rebuilt, add_entries, remove_entries,
}
use request_blocker.Daemon.Engine.Desired.{names, any_names, blocks}
use request_blocker.Daemon.Engine.Rebuild.{IsSound, rebuild_keeps, rebuild_exact, rebuild-Rebuilt}

same_scope_refl : (s : Scope) → same_scope s s ≡ true
same_scope_refl s = ground (arith, int_beq_iff s.uid s.uid)

module _ {A : Type 0} where
  -- The stored list of a scope after a change of it, by the list before and what it became.
  stored-mutate :
      (io : Io) (s : Scope) (fn : BlockList → Result StoreError (BlockList × A)) (d : Disk) (a : A)
      → IsInt64 s.uid
      → (mutate io s fn d).1 ≡ ok a
      → (after : BlockList) × (fn (stored s d) ≡ ok (after, a))
        × (stored s (mutate io s fn d).0 ≡ canonical after)
  unfolding stored
  stored-mutate io s fn d a h done =
      let c = mutate_done io s fn d a done in
      (
        c.after,
        rw c.loaded c.changed,
        rw c.disk (rw (load-save io s s c.after d h h c.done) (rw (same_scope_refl s) refl)),
      )

module _ (be : Backend) (ttl : ℕ) where
  counted_engine :
      (n : ℕ × ℕ) (r : Engine be ttl × Result EngineError (Unit {0})) → (counted be ttl n r).0 ≡ r.0
  counted_engine n (e, ok _) = refl
  counted_engine n (e, err x) = refl

  counted_done :
      (n k : ℕ × ℕ) (r : Engine be ttl × Result EngineError (Unit {0}))
      → (counted be ttl n r).1 ≡ ok k
      → (n ≡ k) × (r.1 ≡ ok tt)
  counted_done n k (e, ok _) h = (ground arith, refl)
  counted_done n k (e, err x) h = absurd (ground arith)

  -- A change that reaches the store stays there, also when the firewall could not be changed.
  rebuilt_disk :
      (w w' : World) (dns : Dns) (e : Engine be ttl) (r : Result StoreError (ℕ × ℕ))
      → (rebuilt be ttl w w' dns e r).0.disk ≡ e.disk
  rebuilt_disk w w' dns e (err x) = refl
  rebuilt_disk w w' dns e (ok n) =
      ap (λ x. x.disk) (counted_engine n (rebuild be ttl w w' dns resolve_missing e))
      ∙ (rebuild-Rebuilt be ttl w w' dns resolve_missing e).disk

  -- What a success says of the change of the store and of the rebuild.
  rebuilt_done :
      (w w' : World) (dns : Dns) (e : Engine be ttl) (r : Result StoreError (ℕ × ℕ)) (n : ℕ × ℕ)
      → (rebuilt be ttl w w' dns e r).1 ≡ ok n
      → (r ≡ ok n)
        × ((rebuild be ttl w w' dns resolve_missing e).1 ≡ ok tt)
        × ((rebuilt be ttl w w' dns e r).0 ≡ (rebuild be ttl w w' dns resolve_missing e).0)
  rebuilt_done w w' dns e (err x) n h = absurd (ground arith)
  rebuilt_done w w' dns e (ok k) n h =
      let (same, done) = counted_done k n (rebuild be ttl w w' dns resolve_missing e) h in
      (ap ok same, done, counted_engine k (rebuild be ttl w w' dns resolve_missing e))

  -- Whatever comes of them, `AddEntries` and `RemoveEntries` leave the stored list of every
  -- scope but theirs as it was. The uids of both scopes fit in 64 bits.
  pub entries_other :
      (io : Io) (w w' : World) (dns : Dns) (s t : Scope) (domains ips : List Text)
      (e : Engine be ttl)
      → IsInt64 s.uid
      → IsInt64 t.uid
      → same_scope s t ≡ false
      → (load t (add_entries be ttl io w w' dns s domains ips e).0.disk ≡ load t e.disk)
        × (load t (remove_entries be ttl io w w' dns s domains ips e).0.disk ≡ load t e.disk)
  unfolding add_entries remove_entries
  entries_other io w w' dns s t domains ips e hs ht apart =
      (other (add_to be ttl domains ips), other (remove_from be ttl domains ips))
    where
      other :
          (fn : BlockList → Result StoreError (BlockList × (ℕ × ℕ)))
          → load t
              (rebuilt be ttl w w' dns
                (record e { disk = (mutate io s fn e.disk).0 })
                (mutate io s fn e.disk).1).0.disk
            ≡ load t e.disk
      other fn =
          ap (load t) (
            rebuilt_disk w w' dns (record e { disk = (mutate io s fn e.disk).0 })
              (mutate io s fn e.disk).1)
          ∙ load-mutate_other io s t fn e.disk hs ht apart

  -- A successful `AddEntries` leaves in its scope's stored list exactly what was there and what
  -- was added, less empty entries. The scope's uid fits in 64 bits.
  pub add_entries-stored :
      (io : Io) (w w' : World) (dns : Dns) (s : Scope) (domains ips : List Text) (e : Engine be ttl)
      (n : ℕ × ℕ) (v : Text)
      → IsInt64 s.uid
      → (add_entries be ttl io w w' dns s domains ips e).1 ≡ ok n
      → (contains (stored s (add_entries be ttl io w w' dns s domains ips e).0.disk).domains v
          ≡ ((contains (stored s e.disk).domains v || contains domains v) && not (is_empty v)))
        × (contains (stored s (add_entries be ttl io w w' dns s domains ips e).0.disk).ips v
            ≡ ((contains (stored s e.disk).ips v || contains ips v) && not (is_empty v)))
  unfolding add_entries
  add_entries-stored io w w' dns s domains ips e n v h done =
      let fn = add_to be ttl domains ips in
      let changed = record e { disk = (mutate io s fn e.disk).0 } in
      let (fine, _, _) = rebuilt_done w w' dns changed (mutate io s fn e.disk).1 n done in
      let (after, is, left) = stored-mutate io s fn e.disk n h fine in
      let same : after ≡ added_to domains ips (stored s e.disk) = ground arith in
      let disk = rebuilt_disk w w' dns changed (mutate io s fn e.disk).1 in
      rw (disk, left, same) (contains-added_to domains ips (stored s e.disk) v)

  -- A successful `RemoveEntries` leaves in its scope's stored list exactly what was there and
  -- was not removed, less empty entries. The scope's uid fits in 64 bits.
  pub remove_entries-stored :
      (io : Io) (w w' : World) (dns : Dns) (s : Scope) (domains ips : List Text) (e : Engine be ttl)
      (n : ℕ × ℕ) (v : Text)
      → IsInt64 s.uid
      → (remove_entries be ttl io w w' dns s domains ips e).1 ≡ ok n
      → (contains (stored s (remove_entries be ttl io w w' dns s domains ips e).0.disk).domains v
          ≡ ((contains (stored s e.disk).domains v && not (contains domains v))
              && not (is_empty v)))
        × (contains (stored s (remove_entries be ttl io w w' dns s domains ips e).0.disk).ips v
            ≡ ((contains (stored s e.disk).ips v && not (contains ips v)) && not (is_empty v)))
  unfolding remove_entries
  remove_entries-stored io w w' dns s domains ips e n v h done =
      let fn = remove_from be ttl domains ips in
      let changed = record e { disk = (mutate io s fn e.disk).0 } in
      let (fine, _, _) = rebuilt_done w w' dns changed (mutate io s fn e.disk).1 n done in
      let (after, is, left) = stored-mutate io s fn e.disk n h fine in
      let same : after ≡ removed_from domains ips (stored s e.disk) = ground arith in
      let disk = rebuilt_disk w w' dns changed (mutate io s fn e.disk).1 in
      rw (disk, left, same) (contains-removed_from domains ips (stored s e.disk) v)
