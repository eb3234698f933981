-- ===== src/Client/Effects.antt =====
-- From the command line to the stored list: what a command that the daemon answers with success
-- has done.
use request_blocker.Shared.{
  ℕ, Bool, true, false, List, [], ◌∷◌, ◌≡◌, ◌∙◌, refl, sym, ap, subst, arith, list_eq, nat_eq,
  list_beq_iff, contains, contains-nil, contains-cons, ok, Bool-cases, inl, inr, ◌==◌,
}
use request_blocker.Text.{Text, int_le, IsInt64}
use request_blocker.Store.Scope.{Scope}
use request_blocker.Store.BlockList.{is_empty}
use request_blocker.Store.Disk.Users.{stored}
use request_blocker.Proto.{version, Request, PeerCred}
use request_blocker.Validate.Domain.{validate_domain}
use request_blocker.Validate.Normalize.{normalize_domain}
use request_blocker.Backend.Interface.{Backend}
use request_blocker.Daemon.Authz.{resolve_scope}
use request_blocker.Daemon.Engine.{Engine}
use request_blocker.Daemon.Handlers.{Ambient, check_domains, normalize_and_validate, dispatch}
use request_blocker.Daemon.Handlers.Validated.{
  check_domains-uncons, check_domains-ok, normalize_and_validate-parts,
}
use request_blocker.Daemon.Access.Changed.{action_of, held_after, dispatch-Changed}
use request_blocker.Client.Arguments.{Options, options, parse_args, IsValid, parse_args-IsValid}
use request_blocker.Client.Requests.{clean_domains, split_list, mutation, build_request}
use request_blocker.Client.Accepted.{clean_names-check, sent}

nonempty_name : (d : Text) → validate_domain d ≡ ok tt → is_empty d ≡ false
unfolding validate_domain
nonempty_name [] h = absurd (ground arith)
nonempty_name (c ∷ d) h = refl

-- Each raw name is among the accepted ones in its normal form, which is not empty.
check_domains-contains :
    (lower : ℕ → ℕ) (raws out : List Text) (raw : Text)
    → check_domains lower raws ≡ ok out
    → contains raws raw ≡ true
    → (contains out (normalize_domain lower raw) ≡ true)
      × (is_empty (normalize_domain lower raw) ≡ false)
check_domains-contains lower [] out raw h there = absurd (ground (arith, contains-nil raw))
check_domains-contains lower (d ∷ ds) out raw h there =
    let (ns, rest, valid, same) = check_domains-uncons lower d ds out h in
    let n = normalize_domain lower d in
    rw same (elim (Bool-cases (d == raw)) [
      | inl here ↦
          let is = ap (normalize_domain lower) ((list_beq_iff d raw).0 here) in
          (
            ground (
              arith,
              is,
              contains-cons n ns (normalize_domain lower raw),
              list_beq_iff n (normalize_domain lower raw),
            ),
            subst (λ t. is_empty t ≡ false) is (nonempty_name n valid),
          )
      | inr elsewhere ↦
          let tail =
            check_domains-contains lower ds ns raw rest (ground (arith, contains-cons d ds raw)) in
          (ground (arith, tail, contains-cons n ns (normalize_domain lower raw)), tail.1)
    ])

-- The action that the options name.
abbrev pub asks : Bool → Options → Bool
asks true o = o.add
asks false o = o.remove

pub mutation-asks :
    (add : Bool) (o : Options) → IsValid o → asks add o ≡ true → mutation o ≡ action_of add
mutation-asks true o valid h = rw h refl
mutation-asks false o valid h = elim (Bool-cases o.add) [
  | inl both ↦ absurd (ground (arith, valid.one_action))
  | inr no_add ↦ rw (no_add, h) refl
]

pub asks-alone :
    (add : Bool) (o : Options)
    → IsValid o
    → asks add o ≡ true
    → (o.show ≡ false) × (o.status ≡ false)
asks-alone true o valid h = ground (arith, valid.one_action)
asks-alone false o valid h = ground (arith, valid.one_action)

-- The names that the daemon makes of a request of the client are those that the client sent.
same_names :
    (lower : ℕ → ℕ) (raws domains ips domains' ips' : List Text)
    → check_domains lower raws ≡ ok domains
    → normalize_and_validate lower domains ips ≡ ok (domains', ips')
    → domains ≡ domains'
same_names lower raws domains ips domains' ips' checked nv =
    let (_, again, _) = normalize_and_validate-parts lower domains ips domains' ips' nv in
    let (_, _, kept) = check_domains-ok lower raws domains checked in ground (arith, kept, again)

module _ (be : Backend) (ttl : ℕ) (a : Ambient) where
  -- What a user types is done: if the daemon answers the request that the client builds from
  -- `--add` or `--remove` with success, then each name that stands between the commas of `--name`
  -- is afterwards, in its normal form, in the stored list of the request's scope after an `--add`,
  -- and not in it after a `--remove`. The scope's uid fits in 64 bits.
  pub client-stored :
      (add : Bool) (args : List Text) (o : Options) (req : Request) (caller : PeerCred)
      (e : Engine be ttl) (s : Scope) (raw : Text)
      → parse_args args ≡ options o
      → asks add o ≡ true
      → build_request a.lower o ≡ ok req
      → resolve_scope a.db o.user caller ≡ ok s
      → IsInt64 s.uid
      → (dispatch be ttl a caller req e).1.is_ok ≡ true
      → contains (split_list o.name) raw ≡ true
      → contains
          (stored s (dispatch be ttl a caller req e).0.disk).domains
          (normalize_domain a.lower raw)
        ≡ add
  client-stored add args o req caller e s raw parsed asked built scope hs done there =
      let valid = parse_args-IsValid args o parsed in
      let (no_show, no_status) = asks-alone add o valid asked in
      let (domains, ips, cleaned, is, parsed) = sent a.lower o req no_show no_status built in
      let checked =
        clean_names-check a.lower (split_list o.name) domains (unfold clean_domains in cleaned) in
      let action : req.action ≡ action_of add =
        ap (λ r. r.action) is ∙ mutation-asks add o valid asked in
      let known : int_le req.version version ≡ true = rw is (unfold int_le in refl) in
      let (domains', ips', nv, changed) =
        dispatch-Changed be ttl a add caller req e s known action
          (ap (λ r. resolve_scope a.db r.target_user caller) is ∙ scope) hs done in
      let same =
        same_names a.lower (split_list o.name) domains ips domains' ips' checked (
          subst (λ r. normalize_and_validate a.lower r.domains r.ips ≡ ok (domains', ips')) is
            nv) in
      let (named, filled) =
        check_domains-contains a.lower (split_list o.name) domains raw checked there in
      changed.names (normalize_domain a.lower raw)
      ∙ outcome add (contains (stored s e.disk).domains (normalize_domain a.lower raw))
          (normalize_domain a.lower raw)
          (ap (λ ds. contains ds (normalize_domain a.lower raw)) (sym same) ∙ named) filled
    where
      outcome :
          (add : Bool) (before : Bool) (v : Text)
          → {asked : Bool} → asked ≡ true
          → is_empty v ≡ false
          → held_after add before asked v ≡ add
      outcome true before v h k = ground (arith, h, k)
      outcome false before v h k = ground (arith, h)
