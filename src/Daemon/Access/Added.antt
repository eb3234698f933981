-- ===== src/Daemon/Access/Added.antt =====
-- From a request to the firewall: what an accepted `add` blocks.
use request_blocker.Shared.{
  ℕ, Bool, true, false, ◌∙◌, ap, ◌&&◌, some, List, ◌≡◌, refl, arith, list_eq, nat_eq, list_beq,
  list_beq_iff, ◌==◌, length, contains, lookup, Result, ok, err, Bool-cases, inl, inr,
}
use request_blocker.Text.{Text, ℤ, int_le, IsInt64}
use request_blocker.Store.Scope.{Scope}
use request_blocker.Proto.{version, action_add, Request, PeerCred}
use request_blocker.Validate.Address.{parse_ip, v4_string, ip_string, normalize_ip}
use request_blocker.Validate.Address.Normal.{normalize_ip-Accepted, normalize_ip-canonical}
use request_blocker.Backend.State.{Family, v4, v6}
use request_blocker.Backend.Interface.{Backend}
use request_blocker.Daemon.Authz.{resolve_scope}
use request_blocker.Daemon.Engine.{Engine, EngineError, add_entries}
use request_blocker.Daemon.Engine.Desired.{names}
use request_blocker.Daemon.Engine.Rebuild.{IsSound}
use request_blocker.Daemon.Engine.Entries.Firewall.{Governs, add_entries_drops}
use request_blocker.Daemon.Handlers.{
  Ambient, Response, InputError, normalize_and_validate, mutate_handler, answered, change_scope,
  handle_mutation, handle, handlers, dispatch,
}
use request_blocker.Daemon.Handlers.Validated.{normalize_and_validate-parts, check_ips-contains}

-- The family of an address, by what `NormalizeIP` says of it.
abbrev pub address_family : Bool → Family
address_family true = v6
address_family false = v4

names-canonical :
    (t canon : Text) (six : Bool)
    → normalize_ip t ≡ ok (canon, six)
    → names (address_family six) canon canon ≡ true
names-canonical t canon six h =
    let (_, fixed) = normalize_ip-canonical t canon six h in
    let (ip, _, trimmed, kind) = normalize_ip-Accepted canon canon six fixed in
    let parsed : parse_ip canon ≡ some ip =
      (normalize_ip-canonical canon canon six fixed).0 ∙ trimmed in
    elim kind [
      | inl (q, four, text, low) ↦
          ap (λ b. names (address_family b) canon canon) low
          ∙ ground (arith, parsed, four, text, list_beq_iff (v4_string q) canon)
      | inr (no_four, text, high) ↦
          ap (λ b. names (address_family b) canon canon) high
          ∙ ground (arith, parsed, no_four, text, list_beq_iff (ip_string ip) canon)
    ]

module _ (be : Backend) (ttl : ℕ) (a : Ambient) where
  -- A positive answer to an addition comes from a successful `AddEntries`.
  answered-ok :
      (s : Scope) (n k : ℕ) (r : Engine be ttl × Result EngineError (ℕ × ℕ))
      → (answered be ttl true s n k r).1.is_ok ≡ true
      → (c : ℕ × ℕ) × (r.1 ≡ ok c) × ((answered be ttl true s n k r).0 ≡ r.0)
  answered-ok s n k (e, err x) h = absurd (ground arith)
  answered-ok s n k (e, ok c) h = (c, refl, refl)

  abbrev Blocked : ℤ → Text → Bool → Engine be ttl × Response → Type 0
  Blocked u canon six r = be.drops r.0.live u (address_family six) canon ≡ true

  change_scope-drops :
      (s : Scope) (raw_domains raw_ips : List Text) (e : Engine be ttl) (u : ℤ) (ip canon : Text)
      (six : Bool) (r : Result InputError (List Text × List Text))
      → normalize_and_validate a.lower raw_domains raw_ips ≡ r
      → IsSound be ttl e
      → IsInt64 s.uid
      → IsInt64 u
      → Governs be ttl s u
      → contains raw_ips ip ≡ true
      → normalize_ip ip ≡ ok (canon, six)
      → (change_scope be ttl true a s r e).1.is_ok ≡ true
      → Blocked u canon six (change_scope be ttl true a s r e)
  change_scope-drops s raw_domains raw_ips e u ip canon six (err x) nv sound hs hu govern there norm
        done =
      absurd (ground arith)
  change_scope-drops s raw_domains raw_ips e u ip canon six (ok (domains, ips)) nv sound hs hu
        govern there norm done =
      elim (Bool-cases (length domains == 0 && length ips == 0)) [
        | inl nothing ↦ absurd (ground arith)
        | inr some_items ↦
            let added = add_entries be ttl a.io a.first a.second a.dns s domains ips e in
            let (n, fine, engine) =
              answered-ok s (length domains) (length ips) added (rw some_items at done) in
            let (_, _, parsed) =
              normalize_and_validate-parts a.lower raw_domains raw_ips domains ips nv in
            let listed = check_ips-contains raw_ips ips ip canon six there norm parsed in
            rw (some_items, engine)
              (add_entries_drops be ttl a.io a.first a.second a.dns s domains ips e n u
                (address_family six) canon canon sound fine hs hu govern listed
                (names-canonical ip canon six norm))
      ]

  -- From the socket to the firewall: if the daemon answers an `add` request of a version it
  -- speaks with success, and its firewall was true to its books, then the firewall afterwards
  -- drops the traffic of every uid that the request's scope governs (the uid's own scope, or the
  -- global one) to each address, IPv4 or IPv6, that `NormalizeIP` accepts among the items of the
  -- request. The uids fit in 64 bits.
  pub dispatch-drops :
      (caller : PeerCred) (req : Request) (e : Engine be ttl) (s : Scope) (u : ℤ) (ip canon : Text)
      (six : Bool)
      → int_le req.version version ≡ true
      → req.action ≡ action_add
      → resolve_scope a.db req.target_user caller ≡ ok s
      → IsSound be ttl e
      → IsInt64 s.uid
      → IsInt64 u
      → Governs be ttl s u
      → contains req.ips ip ≡ true
      → normalize_ip ip ≡ ok (canon, six)
      → (dispatch be ttl a caller req e).1.is_ok ≡ true
      → be.drops (dispatch be ttl a caller req e).0.live u (address_family six) canon ≡ true
  dispatch-drops caller req e s u ip canon six known add scope sound hs hu govern there norm done =
      rw opened (
        change_scope-drops s req.domains req.ips e u ip canon six
          (normalize_and_validate a.lower req.domains req.ips) refl sound hs hu govern there norm
          (rw opened at done))
    where
      handler : lookup req.action handlers ≡ some (mutate_handler true)
      handler = unfold lookup list_beq in (rw add refl)

      opened :
          dispatch be ttl a caller req e
          ≡ change_scope be ttl true a s (normalize_and_validate a.lower req.domains req.ips) e
      opened = unfold dispatch handle handle_mutation in (rw (known, handler, scope) refl)
