-- ===== src/Daemon/Access/Changed.antt =====
-- From a request to the store: what an accepted `add` or `remove` leaves in its scope's list.
use request_blocker.Shared.{
  ℕ, Bool, true, false, ◌||◌, ◌&&◌, not, some, List, ◌≡◌, refl, arith, list_eq, nat_eq, list_beq,
  ◌==◌, length, contains, lookup, Result, ok, err, Bool-cases, inl, inr,
}
use request_blocker.Text.{Text, int_le, IsInt64}
use request_blocker.Store.Scope.{Scope}
use request_blocker.Store.BlockList.{is_empty}
use request_blocker.Store.Disk.Users.{stored}
use request_blocker.Proto.{version, action_add, action_remove, Request, PeerCred}
use request_blocker.Backend.Interface.{Backend}
use request_blocker.Daemon.Authz.{resolve_scope}
use request_blocker.Daemon.Engine.{Engine, EngineError}
use request_blocker.Daemon.Engine.Entries.{add_entries-stored, remove_entries-stored}
use request_blocker.Daemon.Handlers.{
  Ambient, InputError, normalize_and_validate, mutate_handler, answered, change_entries,
  change_scope, handle_mutation, handle, handlers, dispatch,
}

abbrev pub action_of : Bool → Text
action_of true = action_add
action_of false = action_remove

-- Whether a list holds an item after a change that asked for it or not.
abbrev pub held_after : Bool → Bool → Bool → Text → Bool
held_after true before asked v = (before || asked) && not (is_empty v)
held_after false before asked v = (before && not asked) && not (is_empty v)

module _ (be : Backend) (ttl : ℕ) (a : Ambient) where
  answered-ok :
      (add : Bool) (s : Scope) (n k : ℕ) (r : Engine be ttl × Result EngineError (ℕ × ℕ))
      → (answered be ttl add s n k r).1.is_ok ≡ true
      → (c : ℕ × ℕ) × (r.1 ≡ ok c) × ((answered be ttl add s n k r).0 ≡ r.0)
  answered-ok add s n k (e, err x) h = absurd (ground arith)
  answered-ok add s n k (e, ok c) h = (c, refl, refl)

  -- The lists of a scope after a change, against those before it.
  pub record Changed (add : Bool) (s : Scope) (domains ips : List Text) (e e' : Engine be ttl)
      : Type 0 where
    pub names :
        (v : Text)
        → contains (stored s e'.disk).domains v
          ≡ held_after add (contains (stored s e.disk).domains v) (contains domains v) v
    pub addresses :
        (v : Text)
        → contains (stored s e'.disk).ips v
          ≡ held_after add (contains (stored s e.disk).ips v) (contains ips v) v

  change_entries-Changed :
      (add : Bool) (s : Scope) (domains ips : List Text) (e : Engine be ttl) (n : ℕ × ℕ)
      → IsInt64 s.uid
      → (change_entries be ttl add a s domains ips e).1 ≡ ok n
      → Changed add s domains ips e (change_entries be ttl add a s domains ips e).0
  change_entries-Changed true s domains ips e n hs done = record {
    names =
        λ v. (add_entries-stored be ttl a.io a.first a.second a.dns s domains ips e n v hs done).0;
    addresses =
        λ v. (add_entries-stored be ttl a.io a.first a.second a.dns s domains ips e n v hs done).1;
  }
  change_entries-Changed false s domains ips e n hs done = record {
    names = λ v.
        (remove_entries-stored be ttl a.io a.first a.second a.dns s domains ips e n v hs done).0;
    addresses = λ v.
        (remove_entries-stored be ttl a.io a.first a.second a.dns s domains ips e n v hs done).1;
  }

  change_scope-Changed :
      (add : Bool) (s : Scope) (e : Engine be ttl) (r : Result InputError (List Text × List Text))
      → IsInt64 s.uid
      → (change_scope be ttl add a s r e).1.is_ok ≡ true
      → (domains : List Text) × (ips : List Text) × (r ≡ ok (domains, ips))
        × Changed add s domains ips e (change_scope be ttl add a s r e).0
  change_scope-Changed add s e (err x) hs done = absurd (ground arith)
  change_scope-Changed add s e (ok (domains, ips)) hs done =
      elim (Bool-cases (length domains == 0 && length ips == 0)) [
        | inl nothing ↦ absurd (ground arith)
        | inr some_items ↦
            let r = change_entries be ttl add a s domains ips e in
            let (n, fine, engine) =
              answered-ok add s (length domains) (length ips) r (rw some_items at done) in
            (
              domains,
              ips,
              refl,
              rw (some_items, engine) (change_entries-Changed add s domains ips e n hs fine),
            )
      ]

  -- When the daemon answers an `add` or `remove` request of a version it speaks with success, the
  -- items passed validation, and the list of the request's scope then holds exactly what it held
  -- and was added or, for a removal, what it held and was not removed, less empty entries; each
  -- item counts in its normal form. The scope's uid fits in 64 bits.
  pub dispatch-Changed :
      (add : Bool) (caller : PeerCred) (req : Request) (e : Engine be ttl) (s : Scope)
      → int_le req.version version ≡ true
      → req.action ≡ action_of add
      → resolve_scope a.db req.target_user caller ≡ ok s
      → IsInt64 s.uid
      → (dispatch be ttl a caller req e).1.is_ok ≡ true
      → (domains : List Text) × (ips : List Text) × (normalize_and_validate a.lower req.domains
            req.ips
          ≡ ok (domains, ips))
        × Changed add s domains ips e (dispatch be ttl a caller req e).0
  dispatch-Changed add caller req e s known action scope hs done = rw opened (
      change_scope-Changed add s e (normalize_and_validate a.lower req.domains req.ips) hs
        (rw opened at done))
    where
      handler : (b : Bool) → lookup (action_of b) handlers ≡ some (mutate_handler b)
      handler true = unfold lookup list_beq in refl
      handler false = unfold lookup list_beq in refl

      opened :
          dispatch be ttl a caller req e
          ≡ change_scope be ttl add a s (normalize_and_validate a.lower req.domains req.ips) e
      opened =
          unfold dispatch handle handle_mutation in (rw (known, action, handler add, scope) refl)
