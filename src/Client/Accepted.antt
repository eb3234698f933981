-- ===== src/Client/Accepted.antt =====
-- The daemon takes what the client sends.
use request_blocker.Shared.{
  ℕ, ◌≡◌, refl, arith, true, false, is_some, List, [], ◌∷◌, list_eq, list_beq, nat_eq, lookup, All,
  ok, err, ◌+◌, ltb, length, if◌then◌else◌, >>=-eq-ok, Result-cases, Bool-cases, inl, inr,
}
use request_blocker.Text.{Text}
use request_blocker.Proto.{version, action_add, action_remove, action_show, action_status, Request}
use request_blocker.Validate.Domain.{validate_domain}
use request_blocker.Validate.Domain.Hostname.{IsHostname}
use request_blocker.Validate.Normalize.{normalize_domain}
use request_blocker.Validate.Address.{normalize_ip}
use request_blocker.Daemon.Handlers.{
  check_domains, check_ips, normalize_and_validate, too_many_items, handlers,
}
use request_blocker.Daemon.Handlers.Validated.{check_domains-ok, check_ips-check_ips}
use request_blocker.Client.Arguments.{Options, options, parse_args, IsValid, parse_args-IsValid}
use request_blocker.Client.Requests.{
  clean_names, clean_domains, clean_addresses, clean_ips, split_list, request, mutation,
  build_request,
}

-- The daemon would make of the raw names what the client makes of them.
pub clean_names-check :
    (lower : ℕ → ℕ) (raws out : List Text)
    → clean_names lower raws ≡ ok out
    → check_domains lower raws ≡ ok out
unfolding clean_names check_domains
clean_names-check lower [] out h = ground arith
clean_names-check lower (raw ∷ raws) out h =
    elim (Result-cases (validate_domain (normalize_domain lower raw))) [
      | inl (x, bad) ↦ absurd (ground arith)
      | inr (t, fine) ↦
          let (rest, cleaned, same) =
            >>=-eq-ok {A = List Text} {B = List Text} (clean_names lower raws)
              (λ out. ok (normalize_domain lower raw ∷ out)) (rw (fine, clean_names) at h) in
          rw (fine, clean_names-check lower raws rest cleaned, check_domains) (ground arith)
    ]

-- The daemon would make of the raw addresses what the client makes of them.
pub clean_addresses-check :
    (raws out : List Text) → clean_addresses raws ≡ ok out → check_ips raws ≡ ok out
unfolding clean_addresses check_ips
clean_addresses-check [] out h = ground arith
clean_addresses-check (raw ∷ raws) out h = elim (Result-cases (normalize_ip raw)) [
  | inl (x, bad) ↦ absurd (ground arith)
  | inr ((canon, v6), fine) ↦
      let (rest, cleaned, same) =
        >>=-eq-ok {A = List Text} {B = List Text} (clean_addresses raws) (λ out. ok (canon ∷ out))
          (rw (fine, clean_addresses) at h) in
      rw (fine, clean_addresses-check raws rest cleaned, check_ips) (ground arith)
]

-- What the daemon checks of a request before it looks at the caller's rights.
pub record IsAccepted (lower : ℕ → ℕ) (req : Request) : Type 0 where
  pub known_version : req.version ≡ version
  pub known_action : is_some (lookup req.action handlers) ≡ true
  pub hostnames : All IsHostname req.domains
  pub validated : normalize_and_validate lower req.domains req.ips ≡ (
      if ltb 256 (length req.domains + length req.ips)
      then err too_many_items
      else ok (req.domains, req.ips))

items_pass :
    (lower : ℕ → ℕ) (domains ips : List Text)
    → check_domains lower domains ≡ ok domains
    → check_ips ips ≡ ok ips
    → normalize_and_validate lower domains ips
      ≡ (if ltb 256 (length domains + length ips) then err too_many_items else ok (domains, ips))
unfolding normalize_and_validate
items_pass lower domains ips names addresses =
    elim (Bool-cases (ltb 256 (length domains + length ips))) [
      | inl many ↦ rw many refl
      | inr few ↦ rw (few, names, addresses) refl
    ]

no_items :
    (lower : ℕ → ℕ) (action user : Text)
    → is_some (lookup action handlers) ≡ true
    → IsAccepted lower (request action user [] [])
no_items lower action user known = record {
  known_version = refl;
  known_action = known;
  hostnames = tt;
  validated = items_pass lower [] [] (unfold check_domains in refl) (unfold check_ips in refl);
}

known_actions :
    (is_some (lookup action_add handlers) ≡ true)
    × (is_some (lookup action_remove handlers) ≡ true)
    × (is_some (lookup action_show handlers) ≡ true)
    × (is_some (lookup action_status handlers) ≡ true)
unfolding lookup list_beq
known_actions = (refl, refl, refl, refl)

known_mutation :
    (o : Options)
    → IsValid o
    → o.show ≡ false
    → o.status ≡ false
    → is_some (lookup (mutation o) handlers) ≡ true
known_mutation o valid no_show no_status = elim (Bool-cases o.add) [
  | inl adds ↦ rw adds known_actions.0
  | inr no_add ↦ elim (Bool-cases o.remove) [
    | inl removes ↦ rw (no_add, removes) known_actions.1
    | inr no_remove ↦ absurd (ground (arith, valid.one_action))
  ]
]

pub sent :
    (lower : ℕ → ℕ) (o : Options) (req : Request)
    → o.show ≡ false
    → o.status ≡ false
    → build_request lower o ≡ ok req
    → (domains : List Text) × (ips : List Text) × (clean_domains lower o.name ≡ ok domains)
      × (req ≡ request (mutation o) o.user domains ips)
      × (clean_ips o.ip ≡ ok ips)
unfolding build_request
sent lower o req no_show no_status h =
    let (domains, cleaned, e) =
      >>=-eq-ok {A = List Text} {B = Request} (clean_domains lower o.name) _
        (rw (no_show, no_status, build_request) at h) in
    let (ips, parsed, e') = >>=-eq-ok {A = List Text} {B = Request} (clean_ips o.ip) _ e in
    (domains, ips, cleaned, ground arith, parsed)

mutation-IsAccepted :
    (lower : ℕ → ℕ) (o : Options) (req : Request)
    → IsValid o
    → o.show ≡ false
    → o.status ≡ false
    → build_request lower o ≡ ok req
    → IsAccepted lower req
mutation-IsAccepted lower o req valid no_show no_status h =
    let (domains, ips, cleaned, is, parsed) = sent lower o req no_show no_status h in
    let passed =
      clean_names-check lower (split_list o.name) domains (unfold clean_domains in cleaned) in
    let numbers = clean_addresses-check (split_list o.ip) ips (unfold clean_ips in parsed) in
    let (names, _, again) = check_domains-ok lower (split_list o.name) domains passed in
    rw is (record {
      known_version = refl;
      known_action = known_mutation o valid no_show no_status;
      hostnames = names;
      validated =
          items_pass lower domains ips again (check_ips-check_ips (split_list o.ip) ips numbers);
    })

-- A request that the client builds from its arguments has a version and an action that the daemon
-- knows. Its names are hostnames, and the daemon's validation lets all its items through unchanged,
-- unless they are more than 256.
pub build_request-IsAccepted :
    (lower : ℕ → ℕ) (args : List Text) (o : Options) (req : Request)
    → parse_args args ≡ options o
    → build_request lower o ≡ ok req
    → IsAccepted lower req
build_request-IsAccepted lower args o req parsed built =
    let valid = parse_args-IsValid args o parsed in
    elim (Bool-cases o.show) [
      | inl shows ↦ rw (← show_sent shows) (no_items lower action_show o.user known_actions.2)
      | inr no_show ↦ elim (Bool-cases o.status) [
        | inl asks ↦
            rw (← status_sent no_show asks) (no_items lower action_status o.user known_actions.3)
        | inr no_status ↦ mutation-IsAccepted lower o req valid no_show no_status built
      ]
    ]
  where
    show_sent : o.show ≡ true → request action_show o.user [] [] ≡ req
    show_sent shows = unfold build_request in ground arith

    status_sent : o.show ≡ false → o.status ≡ true → request action_status o.user [] [] ≡ req
    status_sent no_show asks = unfold build_request in ground arith
