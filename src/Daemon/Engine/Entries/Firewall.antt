-- ===== src/Daemon/Engine/Entries/Firewall.antt =====
-- The firewall after `AddEntries` and `RemoveEntries`.
use request_blocker.Shared.{
  ℕ, ap, sym, not, ◌&&◌, Bool-cases, Bool, true, false, ◌||◌, none, List, [], ◌∷◌, ◌≡◌, ◌∙◌, ◌⊎◌,
  refl, arith, list_eq, nat_eq, list_beq_iff, contains, contains-cons, contains-nil, Result, ok,
  err, inl, inr,
}
use request_blocker.Text.{Text, ℤ, int_eq, IsInt64}
use request_blocker.Store.Scope.{Scope, global_scope, user_scope}
use request_blocker.Store.BlockList.{is_empty}
use request_blocker.Store.Disk.{Disk, Io, StoreError, mutate}
use request_blocker.Store.Disk.Paths.{same_scope}
use request_blocker.Store.Disk.Users.{stored, stored_in, same_scope-stored}
use request_blocker.Validate.Address.{parse_ip}
use request_blocker.Resolver.{Dns}
use request_blocker.Backend.State.{Family}
use request_blocker.Backend.Interface.{Backend}
use request_blocker.Daemon.Engine.Tables.{World, resolve_missing}
use request_blocker.Daemon.Engine.Defs.{
  Engine, rebuild, add_to, remove_from, rebuilt, add_entries, remove_entries,
}
use request_blocker.Daemon.Engine.Desired.{names, any_names, blocks}
use request_blocker.Daemon.Engine.Rebuild.{IsSound, rebuild_keeps, rebuild_exact}
use request_blocker.Daemon.Engine.Entries.{
  counted_engine, rebuilt_done, entries_other, add_entries-stored, remove_entries-stored,
}

-- Whether an item is in a list after a removal from it, or from another list.
abbrev pub remaining : Bool → List Text → List Text → Text → Bool
remaining true gone held v = (contains held v && not (contains gone v)) && not (is_empty v)
remaining false gone held v = contains held v

module _ (be : Backend) (ttl : ℕ) where
  -- The firewall of an engine drops exactly what its stored lists block, by its cache.
  abbrev pub enforced : Engine be ttl → ℤ → Family → Text → Bool
  enforced e u f x =
      blocks e.cache (stored global_scope e.disk) f x
      || blocks e.cache (stored (user_scope u) e.disk) f x

  rebuilt_exact :
      (w w' : World) (dns : Dns) (e : Engine be ttl) (r : Result StoreError (ℕ × ℕ)) (n : ℕ × ℕ)
      (u : ℤ) (f : Family) (x : Text)
      → IsSound be ttl e
      → (rebuilt be ttl w w' dns e r).1 ≡ ok n
      → IsInt64 u
      → be.drops (rebuilt be ttl w w' dns e r).0.live u f x
        ≡ enforced (rebuilt be ttl w w' dns e r).0 u f x
  rebuilt_exact w w' dns e r n u f x s done h =
      let (_, rebuilt_ok, engine) = rebuilt_done be ttl w w' dns e r n done in
      let (disk, _) = rebuild_keeps be ttl w w' dns resolve_missing e s in
      rw (engine, disk) (rebuild_exact be ttl w w' dns resolve_missing e u f x s rebuilt_ok h)

  rebuilt-IsSound :
      (w w' : World) (dns : Dns) (e : Engine be ttl) (r : Result StoreError (ℕ × ℕ))
      → IsSound be ttl e
      → IsSound be ttl (rebuilt be ttl w w' dns e r).0
  rebuilt-IsSound w w' dns e (err x) s = s
  rebuilt-IsSound w w' dns e (ok n) s =
      rw (counted_engine be ttl n (rebuild be ttl w w' dns resolve_missing e))
        (rebuild_keeps be ttl w w' dns resolve_missing e s).1

  -- Whatever comes of them, `AddEntries` and `RemoveEntries` leave a firewall that is true to its
  -- books true to them.
  pub entries-IsSound :
      (io : Io) (w w' : World) (dns : Dns) (s : Scope) (domains ips : List Text) (e : Engine be ttl)
      → IsSound be ttl e
      → IsSound be ttl (add_entries be ttl io w w' dns s domains ips e).0
        × IsSound be ttl (remove_entries be ttl io w w' dns s domains ips e).0
  unfolding add_entries remove_entries
  entries-IsSound io w w' dns s domains ips e sound = (
    of (mutate io s (add_to be ttl domains ips) e.disk),
    of (mutate io s (remove_from be ttl domains ips) e.disk),
  )
    where
      of :
          (m : Disk × Result StoreError (ℕ × ℕ))
          → IsSound be ttl (rebuilt be ttl w w' dns (record e { disk = m.0 }) m.1).0
      of m = rebuilt-IsSound w w' dns (record e { disk = m.0 }) m.1 sound

  -- After a successful `AddEntries` the firewall drops exactly what the lists then stored block.
  pub add_entries_exact :
      (io : Io) (w w' : World) (dns : Dns) (s : Scope) (domains ips : List Text) (e : Engine be ttl)
      (n : ℕ × ℕ) (u : ℤ) (f : Family) (x : Text)
      → IsSound be ttl e
      → (add_entries be ttl io w w' dns s domains ips e).1 ≡ ok n
      → IsInt64 u
      → be.drops (add_entries be ttl io w w' dns s domains ips e).0.live u f x
        ≡ enforced (add_entries be ttl io w w' dns s domains ips e).0 u f x
  unfolding add_entries
  add_entries_exact io w w' dns s domains ips e n u f x sound done h =
      let m = mutate io s (add_to be ttl domains ips) e.disk in
      rebuilt_exact w w' dns (record e { disk = m.0 }) m.1 n u f x sound done h

  -- After a successful `RemoveEntries` on an engine whose firewall is true to its books, the
  -- scope's stored list holds exactly what it held and was not removed, less empty entries, every
  -- other scope's list is what it was, and the firewall drops for every uid of 64 bits exactly
  -- what the global list and the uid's own list of that store block by the resulting cache. The
  -- uids of the scopes fit in 64 bits.
  pub remove_entries_exact :
      (io : Io) (w w' : World) (dns : Dns) (s : Scope) (domains ips : List Text) (e : Engine be ttl)
      (n : ℕ × ℕ) (t : Scope) (v : Text) (u : ℤ) (f : Family) (x : Text)
      → IsSound be ttl e
      → (remove_entries be ttl io w w' dns s domains ips e).1 ≡ ok n
      → IsInt64 s.uid
      → IsInt64 t.uid
      → IsInt64 u
      → (contains (stored t (remove_entries be ttl io w w' dns s domains ips e).0.disk).domains v
          ≡ remaining (same_scope s t) domains (stored t e.disk).domains v)
        × (contains (stored t (remove_entries be ttl io w w' dns s domains ips e).0.disk).ips v
            ≡ remaining (same_scope s t) ips (stored t e.disk).ips v)
        × (be.drops (remove_entries be ttl io w w' dns s domains ips e).0.live u f x
            ≡ enforced (remove_entries be ttl io w w' dns s domains ips e).0 u f x)
  unfolding remove_entries stored
  remove_entries_exact io w w' dns s domains ips e n t v u f x sound done hs ht hu =
      let m = mutate io s (remove_from be ttl domains ips) e.disk in
      let exact = rebuilt_exact w w' dns (record e { disk = m.0 }) m.1 n u f x sound done hu in
      elim (Bool-cases (same_scope s t)) [
        | inl same ↦
            let (names, addresses) =
              remove_entries-stored be ttl io w w' dns s domains ips e n v hs done in
            let after = (remove_entries be ttl io w w' dns s domains ips e).0.disk in
            rw same (
              ap (λ bl. contains bl.domains v) (same_scope-stored s t after same)
                  ∙ names
                  ∙ ap (λ bl. remaining true domains bl.domains v)
                      (sym (same_scope-stored s t e.disk same)),
              ap (λ bl. contains bl.ips v) (same_scope-stored s t after same)
                  ∙ addresses
                  ∙ ap (λ bl. remaining true ips bl.ips v)
                      (sym (same_scope-stored s t e.disk same)),
              exact,
            )
        | inr other ↦
            let kept = (entries_other be ttl io w w' dns s t domains ips e hs ht other).1 in
            rw other (
              ap (λ r. contains (stored_in r).domains v) kept,
              ap (λ r. contains (stored_in r).ips v) kept,
              exact,
            )
      ]

  any_names-contains :
      (f : Family) (x ip : Text) (ips : List Text)
      → contains ips ip ≡ true
      → names f x ip ≡ true
      → any_names f x ips ≡ true
  any_names-contains f x ip [] h k = absurd (ground (arith, contains-nil ip))
  any_names-contains f x ip (y ∷ ys) h k =
      ground (arith, contains-cons y ys ip, list_beq_iff y ip, any_names-contains f x ip ys)

  no_address : parse_ip [] ≡ none
  unfolding parse_ip
  no_address = refl

  names-filled : (f : Family) (x ip : Text) → names f x ip ≡ true → is_empty ip ≡ false
  names-filled f x [] h = absurd (ground (arith, no_address))
  names-filled f x (c ∷ cs) h = refl

  -- The lists that bind a uid: the global one and its own.
  abbrev pub Governs : Scope → ℤ → Type 0
  Governs s u = (s ≡ global_scope) ⊎ (s ≡ user_scope u)

  enforced-Governs :
      (e : Engine be ttl) (s : Scope) (u : ℤ) (f : Family) (x : Text)
      → Governs s u
      → blocks e.cache (stored s e.disk) f x ≡ true
      → enforced e u f x ≡ true
  enforced-Governs e s u f x (inl is) h = let k = rw is at h in ground arith
  enforced-Governs e s u f x (inr is) h = let k = rw is at h in ground arith

  -- After a successful `AddEntries` to the global list or to a uid's own list, the firewall drops
  -- that uid's traffic to every address for which one of the added texts stands.
  pub add_entries_drops :
      (io : Io) (w w' : World) (dns : Dns) (s : Scope) (domains ips : List Text) (e : Engine be ttl)
      (n : ℕ × ℕ) (u : ℤ) (f : Family) (x ip : Text)
      → IsSound be ttl e
      → (add_entries be ttl io w w' dns s domains ips e).1 ≡ ok n
      → IsInt64 s.uid
      → IsInt64 u
      → Governs s u
      → contains ips ip ≡ true
      → names f x ip ≡ true
      → be.drops (add_entries be ttl io w w' dns s domains ips e).0.live u f x ≡ true
  add_entries_drops io w w' dns s domains ips e n u f x ip sound done hs hu govern there name =
      add_entries_exact io w w' dns s domains ips e n u f x sound done hu
      ∙ enforced-Governs after s u f x govern
          (ground (arith, any_names-contains f x ip (stored s after.disk).ips is_stored name))
    where
      after : Engine be ttl
      after = (add_entries be ttl io w w' dns s domains ips e).0

      is_stored : contains (stored s after.disk).ips ip ≡ true
      is_stored =
          (add_entries-stored be ttl io w w' dns s domains ips e n ip hs done).1
          ∙ ground (arith, names-filled f x ip name)
