-- ===== src/Daemon/Access.antt =====
-- What a request can do, by the caller's identity.
pub mod Added
pub mod Changed
use request_blocker.Shared.{
  ℕ, ◌+◌, ◌^◌, ◌<◌, Bool, true, false, ◌||◌, ◌&&◌, not, Option, none, some, List, [], ◌∷◌, ◌≡◌, ◌≢◌,
  ◌∙◌, ◌⊎◌, refl, sym, ap, arith, list_eq, nat_eq, list_beq_iff, ◌==◌, length, contains, lookup,
  Result, ok, err, ◌>>=◌, if◌then◌else◌, Bool-cases, Result-cases, inl, inr,
}
use request_blocker.Text.{Text, ℤ, pos, int_le, IsInt64, itoa}
use request_blocker.Store.Scope.{Scope, global_scope, user_scope}
use request_blocker.Store.Disk.{Disk, load}
use request_blocker.Store.Disk.Paths.{same_scope}
use request_blocker.Proto.{version, Request, PeerCred, is_root}
use request_blocker.Backend.Interface.{Backend}
use request_blocker.Daemon.Authz.{UserDb, AuthzError, resolve_scope}
use request_blocker.Daemon.Authz.Own.{resolve_scope-user}
use request_blocker.Daemon.Engine.{Engine, EngineError}
use request_blocker.Daemon.Engine.Rebuild.{IsSound}
use request_blocker.Daemon.Engine.Entries.{entries_other}
use request_blocker.Daemon.Engine.Entries.Firewall.{entries-IsSound}
use request_blocker.Daemon.Handlers.{
  Ambient, Response, ResponseError, generic_apply_error, InputError, normalize_and_validate,
  handlers, Handler, mutate_handler, show_handler, status_handler, answered, change_entries,
  change_scope, authorized, handle_mutation, handle, dispatch, show, show_as_user,
}

-- What a caller that is not root is shown depends on the stored global list and on the caller's
-- own stored list alone: on two stores that load the same two lists it is the same, whatever
-- else they hold and whatever the user database says.
pub show-agrees :
    (db db' : UserDb) (readable readable' : Bool) (caller : PeerCred) (d d' : Disk)
    → is_root caller ≡ false
    → load global_scope d ≡ load global_scope d'
    → load (user_scope (pos caller.uid)) d ≡ load (user_scope (pos caller.uid)) d'
    → show db readable caller d ≡ show db' readable' caller d'
unfolding show show_as_user
show-agrees db db' readable readable' caller d d' user global own = ground (arith)

module _ (be : Backend) (ttl : ℕ) where
  -- Something that holds of the engine as it is, and after every change of its scope, holds after
  -- the handler.
  module _ (P : Engine be ttl → Type 0) (a : Ambient) (e : Engine be ttl) (here : P e) where
    answered-keeps :
        (add : Bool) (s : Scope) (n k : ℕ) (r : Engine be ttl × Result EngineError (ℕ × ℕ))
        → P r.0
        → P (answered be ttl add s n k r).0
    answered-keeps add s n k (e', err x) h = h
    answered-keeps add s n k (e', ok c) h = h

    change_scope-keeps :
        (add : Bool) (s : Scope) (r : Result InputError (List Text × List Text))
        → ((domains ips : List Text) → P (change_entries be ttl add a s domains ips e).0)
        → P (change_scope be ttl add a s r e).0
    change_scope-keeps add s (err x) h = here
    change_scope-keeps add s (ok (domains, ips)) h =
        elim (Bool-cases (length domains == 0 && length ips == 0)) [
          | inl nothing ↦ rw nothing here
          | inr some_items ↦ rw some_items (
              answered-keeps add s (length domains) (length ips)
                (change_entries be ttl add a s domains ips e) (h domains ips))
        ]

    authorized-keeps :
        (add : Bool) (req : Request) (r : Result AuthzError Scope)
        → ((s : Scope) (domains ips : List Text)
            → r ≡ ok s
            → P (change_entries be ttl add a s domains ips e).0)
        → P (authorized be ttl add a req r e).0
    authorized-keeps add req (err x) h = here
    authorized-keeps add req (ok s) h =
        change_scope-keeps add s (normalize_and_validate a.lower req.domains req.ips)
          λ domains ips. h s domains ips refl

    handle-keeps :
        (caller : PeerCred) (req : Request) (o : Option Handler)
        → ((add : Bool) (s : Scope) (domains ips : List Text)
            → resolve_scope a.db req.target_user caller ≡ ok s
            → P (change_entries be ttl add a s domains ips e).0)
        → P (handle be ttl o a caller req e).0
    unfolding handle handle_mutation
    handle-keeps caller req none h = here
    handle-keeps caller req (some (mutate_handler add)) h =
        authorized-keeps add req (resolve_scope a.db req.target_user caller) (h add)
    handle-keeps caller req (some show_handler) h = here
    handle-keeps caller req (some status_handler) h = here

    dispatch-keeps :
        (caller : PeerCred) (req : Request)
        → ((add : Bool) (s : Scope) (domains ips : List Text)
            → resolve_scope a.db req.target_user caller ≡ ok s
            → P (change_entries be ttl add a s domains ips e).0)
        → P (dispatch be ttl a caller req e).0
    unfolding dispatch
    dispatch-keeps caller req h = elim (Bool-cases (int_le req.version version)) [
      | inl known ↦ rw known (handle-keeps caller req (lookup req.action handlers) h)
      | inr newer ↦ rw newer here
    ]

  -- Every request, whoever sends it and whatever comes of it, leaves a firewall that is true to
  -- its backend's books true to them.
  pub dispatch-IsSound :
      (a : Ambient) (caller : PeerCred) (req : Request) (e : Engine be ttl)
      → IsSound be ttl e
      → IsSound be ttl (dispatch be ttl a caller req e).0
  dispatch-IsSound a caller req e sound =
      dispatch-keeps (IsSound be ttl) a e sound caller req changed
    where
      changed :
          (add : Bool) (s : Scope) (domains ips : List Text)
          → resolve_scope a.db req.target_user caller ≡ ok s
          → IsSound be ttl (change_entries be ttl add a s domains ips e).0
      changed true s domains ips h =
          (entries-IsSound be ttl a.io a.first a.second a.dns s domains ips e sound).0
      changed false s domains ips h =
          (entries-IsSound be ttl a.io a.first a.second a.dns s domains ips e sound).1

  -- A caller that is not root cannot change any list but its own: no request of a user, whatever
  -- it says and whatever comes of it, changes the stored list of another scope, the global one
  -- included. The caller's uid fits in 32 bits, the other scope's in 64.
  pub dispatch-own :
      (a : Ambient) (caller : PeerCred) (req : Request) (e : Engine be ttl) (t : Scope)
      → is_root caller ≡ false
      → caller.uid < 2 ^ 32
      → IsInt64 t.uid
      → same_scope (user_scope (pos caller.uid)) t ≡ false
      → load t (dispatch be ttl a caller req e).0.disk ≡ load t e.disk
  dispatch-own a caller req e t user small ht other =
      dispatch-keeps (λ x. load t x.disk ≡ load t e.disk) a e refl caller req changed
    where
      own :
          (s : Scope)
          → resolve_scope a.db req.target_user caller ≡ ok s
          → user_scope (pos caller.uid) ≡ s
      own s h = ground (arith, resolve_scope-user a.db req.target_user caller user)

      apart : (s : Scope) → user_scope (pos caller.uid) ≡ s → same_scope s t ≡ false
      apart s is = ap (λ x. same_scope x t) (sym is) ∙ other

      bound : (s : Scope) → user_scope (pos caller.uid) ≡ s → IsInt64 s.uid
      bound s is = rw (← is) (omega arith)

      changed :
          (add : Bool) (s : Scope) (domains ips : List Text)
          → resolve_scope a.db req.target_user caller ≡ ok s
          → load t (change_entries be ttl add a s domains ips e).0.disk ≡ load t e.disk
      changed true s domains ips h =
          (entries_other be ttl a.io a.first a.second a.dns s t domains ips e (bound s (own s h)) ht
            (apart s (own s h))).0
      changed false s domains ips h =
          (entries_other be ttl a.io a.first a.second a.dns s t domains ips e (bound s (own s h)) ht
            (apart s (own s h))).1
