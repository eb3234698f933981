-- ===== src/Daemon/Handlers/Validated.antt =====
-- `normalizeAndValidate`: what it lets through.
use request_blocker.Shared.{
  ℕ, ◌+◌, ◌≤◌, Bool, true, false, List, [], ◌∷◌, ◌≡◌, suc, refl, ap, arith, list_eq, nat_eq, length,
  contains, contains-nil, contains-cons, list_beq_iff, ltb, All, ok, >>=-eq-ok, Result-cases, inl,
  inr,
}
use request_blocker.Text.{Text}
use request_blocker.Validate.Domain.{validate_domain}
use request_blocker.Validate.Domain.Hostname.{IsHostname, validate_domain_iff}
use request_blocker.Validate.Normalize.{normalize_domain}
use request_blocker.Validate.Normalize.Fixed.{normalize_domain-valid}
use request_blocker.Validate.Address.{normalize_ip}
use request_blocker.Validate.Address.Normal.{normalize_ip-canonical}
use request_blocker.Daemon.Handlers.Inputs.{check_domains, check_ips, normalize_and_validate}

check_domains_cons :
    (lower : ℕ → ℕ) (d n : Text) (ds ns : List Text)
    → normalize_domain lower d ≡ n
    → validate_domain n ≡ ok tt
    → check_domains lower ds ≡ ok ns
    → check_domains lower (d ∷ ds) ≡ ok (n ∷ ns)
unfolding check_domains
check_domains_cons lower d n ds ns is valid rest =
    rw (is, valid, rest, check_domains) (ap (λ x. ok (x ∷ ns)) is)

pub check_domains-uncons :
    (lower : ℕ → ℕ) (d : Text) (ds out : List Text)
    → check_domains lower (d ∷ ds) ≡ ok out
    → (ns : List Text) × (check_domains lower ds ≡ ok ns)
      × (validate_domain (normalize_domain lower d) ≡ ok tt)
      × (out ≡ normalize_domain lower d ∷ ns)
unfolding check_domains
check_domains-uncons lower d ds out h =
    elim (Result-cases (validate_domain (normalize_domain lower d))) [
      | inl (x, bad) ↦ absurd (ground arith)
      | inr (t, fine) ↦
          let (ns, rest, same) =
            >>=-eq-ok {A = List Text} {B = List Text} (check_domains lower ds)
              (λ ns. ok (normalize_domain lower d ∷ ns)) (rw (fine, check_domains) at h) in
          (ns, rest, fine, ground arith)
    ]

-- The names that are accepted are hostnames, as many as were given, and are accepted again as
-- they are.
pub check_domains-ok :
    (lower : ℕ → ℕ) (ds out : List Text)
    → check_domains lower ds ≡ ok out
    → All IsHostname out × (length out ≡ length ds) × (check_domains lower out ≡ ok out)
check_domains-ok lower [] out h =
    let same : [] ≡ out = unfold check_domains in ground arith in
    rw (← same) (tt, refl, unfold check_domains in refl)
check_domains-ok lower (d ∷ ds) out h =
    let (ns, rest, valid, same) = check_domains-uncons lower d ds out h in
    let (names, count, again) = check_domains-ok lower ds ns rest in
    let n = normalize_domain lower d in
    rw same (
      ((validate_domain_iff n).0 valid, names),
      ap suc count,
      check_domains_cons lower n n ns ns (normalize_domain-valid lower n valid) valid again,
    )

check_ips_cons :
    (ip canon : Text) (v6 : Bool) (ips canons : List Text)
    → normalize_ip ip ≡ ok (canon, v6)
    → check_ips ips ≡ ok canons
    → check_ips (ip ∷ ips) ≡ ok (canon ∷ canons)
unfolding check_ips
check_ips_cons ip canon v6 ips canons fine rest = rw (fine, rest, check_ips) refl

-- The addresses that are let through are let through again as they are.
pub check_ips-check_ips : (ips out : List Text) → check_ips ips ≡ ok out → check_ips out ≡ ok out
unfolding check_ips
check_ips-check_ips [] out h = let same : [] ≡ out = ground arith in rw (← same) refl
check_ips-check_ips (ip ∷ ips) out h = elim (Result-cases (normalize_ip ip)) [
  | inl (x, bad) ↦ absurd (ground arith)
  | inr ((canon, v6), fine) ↦
      let (canons, rest, same) =
        >>=-eq-ok {A = List Text} {B = List Text} (check_ips ips) (λ canons. ok (canon ∷ canons))
          (rw (fine, check_ips) at h) in
      let is : canon ∷ canons ≡ out = ground arith in
      rw (← is) (
        check_ips_cons canon canon v6 canons canons (normalize_ip-canonical ip canon v6 fine).1
          (check_ips-check_ips ips canons rest))
]

check_ips-length : (ips out : List Text) → check_ips ips ≡ ok out → length out ≡ length ips
unfolding check_ips
check_ips-length [] out h = let same : [] ≡ out = ground arith in rw (← same) refl
check_ips-length (ip ∷ ips) out h = elim (Result-cases (normalize_ip ip)) [
  | inl (x, bad) ↦ absurd (ground arith)
  | inr ((canon, v6), fine) ↦
      let (canons, rest, same) =
        >>=-eq-ok {A = List Text} {B = List Text} (check_ips ips) (λ canons. ok (canon ∷ canons))
          (rw (fine, check_ips) at h) in
      let shorter = check_ips-length ips canons rest in ground (arith, same)
]

pub normalize_and_validate-parts :
    (lower : ℕ → ℕ) (raw_domains raw_ips domains ips : List Text)
    → normalize_and_validate lower raw_domains raw_ips ≡ ok (domains, ips)
    → (ltb 256 (length raw_domains + length raw_ips) ≡ false)
      × (check_domains lower raw_domains ≡ ok domains)
      × (check_ips raw_ips ≡ ok ips)
unfolding normalize_and_validate
normalize_and_validate-parts lower raw_domains raw_ips domains ips h = ground arith

normalize_and_validate-again :
    (lower : ℕ → ℕ) (domains ips : List Text)
    → ltb 256 (length domains + length ips) ≡ false
    → check_domains lower domains ≡ ok domains
    → check_ips ips ≡ ok ips
    → normalize_and_validate lower domains ips ≡ ok (domains, ips)
unfolding normalize_and_validate
normalize_and_validate-again lower domains ips few names addresses =
    ground (arith, few, names, addresses)

-- A request that passes validation has at most 256 items, and yields as many as were given; its
-- names are hostnames, and the items would pass again unchanged.
pub normalize_and_validate-ok :
    (lower : ℕ → ℕ) (raw_domains raw_ips domains ips : List Text)
    → normalize_and_validate lower raw_domains raw_ips ≡ ok (domains, ips)
    → (length domains + length ips ≤ 256)
      × (length domains ≡ length raw_domains)
      × (length ips ≡ length raw_ips)
      × All IsHostname domains
      × (normalize_and_validate lower domains ips ≡ ok (domains, ips))
normalize_and_validate-ok lower raw_domains raw_ips domains ips h =
    let (few, checked, parsed) =
      normalize_and_validate-parts lower raw_domains raw_ips domains ips h in
    let (names, count, again) = check_domains-ok lower raw_domains domains checked in
    let ips_count = check_ips-length raw_ips ips parsed in
    (
      ground (arith, few),
      count,
      ips_count,
      names,
      normalize_and_validate-again lower domains ips (ground (arith, few)) again
          (check_ips-check_ips raw_ips ips parsed),
    )

-- The canonical form of a given address is among the addresses that are let through.
pub check_ips-contains :
    (ips out : List Text) (ip canon : Text) (v6 : Bool)
    → contains ips ip ≡ true
    → normalize_ip ip ≡ ok (canon, v6)
    → check_ips ips ≡ ok out
    → contains out canon ≡ true
unfolding check_ips
check_ips-contains [] out ip canon v6 h n c = absurd (ground (arith, contains-nil ip))
check_ips-contains (x ∷ ips) out ip canon v6 h n c = elim (Result-cases (normalize_ip x)) [
  | inl (_, bad) ↦ absurd (ground arith)
  | inr ((first, v), fine) ↦
      let (canons, rest, same) =
        >>=-eq-ok {A = List Text} {B = List Text} (check_ips ips) (λ canons. ok (first ∷ canons))
          (rw (fine, check_ips) at c) in
      let tail = check_ips-contains ips canons ip canon v6 in
      let is : first ∷ canons ≡ out = ground arith in
      rw (← is) (
        ground (
          arith,
          contains-cons x ips ip,
          contains-cons first canons canon,
          list_beq_iff x ip,
          list_beq_iff first canon,
          tail,
        ))
]
