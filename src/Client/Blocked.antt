-- ===== src/Client/Blocked.antt =====
-- From the command line to the firewall.
use request_blocker.Shared.{
  ℕ, Bool, true, some, List, ◌≡◌, ◌∙◌, refl, ap, arith, list_eq, nat_eq, contains, ok,
}
use request_blocker.Text.{Text, ℤ, int_le, IsInt64}
use request_blocker.Store.Scope.{Scope}
use request_blocker.Proto.{version, Request, PeerCred}
use request_blocker.Validate.Address.{normalize_ip}
use request_blocker.Validate.Address.Normal.{normalize_ip-canonical}
use request_blocker.Backend.Interface.{Backend}
use request_blocker.Daemon.Authz.{resolve_scope}
use request_blocker.Daemon.Engine.{Engine}
use request_blocker.Daemon.Engine.Rebuild.{IsSound}
use request_blocker.Daemon.Engine.Entries.Firewall.{Governs}
use request_blocker.Daemon.Handlers.{Ambient, ResponseError, dispatch}
use request_blocker.Daemon.Handlers.Validated.{check_ips-contains}
use request_blocker.Daemon.Access.Added.{address_family, dispatch-drops}
use request_blocker.Client.Arguments.{Options, options, parse_args, parse_args-IsValid}
use request_blocker.Client.Requests.{clean_ips, split_list, build_request}
use request_blocker.Client.Accepted.{clean_addresses-check, sent}
use request_blocker.Client.Effects.{asks, asks-alone, mutation-asks}
use request_blocker.Client.Output.{Answer}
use request_blocker.Client.Main.{Socket, main}
use request_blocker.Client.Ends.{answer_of, main-ok}

module _ (be : Backend) (ttl : ℕ) (a : Ambient) where
  -- The daemon's success on a request that the client has built from `--add`.
  client-drops :
      (args : List Text) (o : Options) (req : Request) (caller : PeerCred) (e : Engine be ttl)
      (s : Scope) (u : ℤ) (raw canon : Text) (six : Bool)
      → parse_args args ≡ options o
      → asks true o ≡ true
      → build_request a.lower o ≡ ok req
      → resolve_scope a.db o.user caller ≡ ok s
      → IsSound be ttl e
      → IsInt64 s.uid
      → IsInt64 u
      → Governs be ttl s u
      → contains (split_list o.ip) raw ≡ true
      → normalize_ip raw ≡ ok (canon, six)
      → (dispatch be ttl a caller req e).1.is_ok ≡ true
      → be.drops (dispatch be ttl a caller req e).0.live u (address_family six) canon ≡ true
  client-drops args o req caller e s u raw canon six is asked built scope sound hs hu govern there
        norm done =
      let (no_show, no_status) = asks-alone true o (parse_args-IsValid args o is) asked in
      let (_, ips, _, shape, cleaned) = sent a.lower o req no_show no_status built in
      let kept = clean_addresses-check (split_list o.ip) ips (unfold clean_ips in cleaned) in
      let listed : contains req.ips canon ≡ true =
        ap (λ r. contains r.ips canon) shape
        ∙ check_ips-contains (split_list o.ip) ips raw canon six there norm kept in
      let known : int_le req.version version ≡ true = rw shape (unfold int_le in refl) in
      dispatch-drops be ttl a caller req e s u canon canon six known
        (ap (λ r. r.action) shape ∙ mutation-asks true o (parse_args-IsValid args o is) asked)
        (ap (λ r. resolve_scope a.db r.target_user caller) shape ∙ scope) sound hs hu govern listed
        (normalize_ip-canonical raw canon six norm).1 done

module _ (be : Backend) (ttl : ℕ) (a : Ambient) (words : ResponseError → Text)
    (encode : Answer → Text) (socket : Text → Socket) where
  -- When the client runs with `--add` against the daemon, whose firewall is true to its books, and
  -- ends with status 0, it has sent a request, and after the daemon's answer to it the firewall
  -- drops the traffic of every uid that the request's scope governs to each address, IPv4 or IPv6,
  -- that stands between the commas of `--ip`. The uids fit in 64 bits.
  pub main-drops :
      (args : List Text) (o : Options) (caller : PeerCred) (e : Engine be ttl) (s : Scope) (u : ℤ)
      (raw canon : Text) (six : Bool)
      → parse_args args ≡ options o
      → asks true o ≡ true
      → ((req : Request)
          → (socket o.socket).answer req
            ≡ some (answer_of words (dispatch be ttl a caller req e).1))
      → resolve_scope a.db o.user caller ≡ ok s
      → IsSound be ttl e
      → IsInt64 s.uid
      → IsInt64 u
      → Governs be ttl s u
      → contains (split_list o.ip) raw ≡ true
      → normalize_ip raw ≡ ok (canon, six)
      → (main a.lower encode socket args).status ≡ 0
      → (req : Request) × (build_request a.lower o ≡ ok req)
        × (be.drops (dispatch be ttl a caller req e).0.live u (address_family six) canon ≡ true)
  main-drops args o caller e s u raw canon six is asked daemon scope sound hs hu govern there norm
        ended =
      let (req, resp, built, replied, fine) = main-ok a.lower encode socket args o is ended in
      let done : (dispatch be ttl a caller req e).1.is_ok ≡ true =
        ground (arith, daemon req, replied, fine) in
      (
        req,
        built,
        client-drops be ttl a args o req caller e s u raw canon six is asked built scope sound hs hu
            govern there norm done,
      )
