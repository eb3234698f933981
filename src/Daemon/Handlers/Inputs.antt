-- ===== src/Daemon/Handlers/Inputs.antt =====
-- `normalizeAndValidate`: the items of a request.
use request_blocker.Shared.{
  ℕ, ◌+◌, List, [], ◌∷◌, list_eq, nat_eq, length, ltb, Result, ok, err, ◌>>=◌, if◌then◌else◌,
}
use request_blocker.Text.{Text}
use request_blocker.Validate.Address.{AddressError, normalize_ip}
use request_blocker.Validate.Domain.{DomainError, max_items_per_request, validate_domain}
use request_blocker.Validate.Normalize.{normalize_domain}

pub data InputError : Type 0 where
  too_many_items : InputError
  bad_domain : DomainError → InputError
  bad_address : AddressError → InputError

unfoldable pub check_domains : (ℕ → ℕ) → List Text → Result InputError (List Text)
check_domains lower [] = ok []
check_domains lower (d ∷ ds) =
    let n = normalize_domain lower d in
    let rest = check_domains lower ds in
    elim (validate_domain n) [ err x ↦ err (bad_domain x) | ok _ ↦ rest >>= λ ns. ok (n ∷ ns) ]

unfoldable pub check_ips : List Text → Result InputError (List Text)
check_ips [] = ok []
check_ips (ip ∷ ips) =
    let rest = check_ips ips in
    elim (normalize_ip ip) [
      | err x ↦ err (bad_address x)
      | ok (canon, _) ↦ rest >>= λ canons. ok (canon ∷ canons)
    ]

unfoldable pub normalize_and_validate :
    (ℕ → ℕ) → List Text → List Text → Result InputError (List Text × List Text)
unfolding check_domains check_ips
normalize_and_validate lower raw_domains raw_ips =
    if ltb max_items_per_request (length raw_domains + length raw_ips)
    then err too_many_items
    else check_domains lower raw_domains >>= λ domains.
        check_ips raw_ips >>= λ ips. ok (domains, ips)
