-- ===== src/Client/Requests.antt =====
-- `buildRequest` with `cleanDomains`, `cleanIPs` and `splitList`.
use request_blocker.Shared.{
  ℕ, ◌&&◌, List, [], ◌∷◌, list_eq, nat_eq, ◌==◌, length, Result, ok, err, ◌>>=◌, if◌then◌else◌,
}
use request_blocker.Text.{Text, split, trim_space}
use request_blocker.Proto.{version, action_add, action_remove, action_show, action_status, Request}
use request_blocker.Validate.Address.{AddressError, normalize_ip}
use request_blocker.Validate.Domain.{DomainError, validate_domain}
use request_blocker.Validate.Normalize.{normalize_domain}
use request_blocker.Client.Arguments.{Options}

pub data RequestError : Type 0 where
  bad_name : DomainError → RequestError
  bad_ip : AddressError → RequestError
  nothing_given : RequestError

unfoldable pub keep_filled : List Text → List Text
keep_filled [] = []
keep_filled (p ∷ ps) =
    let rest = keep_filled ps in let t = trim_space p in if length t == 0 then rest else t ∷ rest

unfoldable pub split_list : Text → List Text
unfolding keep_filled
split_list csv = if length (trim_space csv) == 0 then [] else keep_filled (split csv b',')

unfoldable pub clean_names : (ℕ → ℕ) → List Text → Result RequestError (List Text)
clean_names lower [] = ok []
clean_names lower (raw ∷ raws) =
    let d = normalize_domain lower raw in
    let rest = clean_names lower raws in
    elim (validate_domain d) [ err x ↦ err (bad_name x) | ok _ ↦ rest >>= λ out. ok (d ∷ out) ]

unfoldable pub clean_addresses : List Text → Result RequestError (List Text)
clean_addresses [] = ok []
clean_addresses (raw ∷ raws) =
    let rest = clean_addresses raws in
    elim (normalize_ip raw) [
      | err x ↦ err (bad_ip x)
      | ok (canon, _) ↦ rest >>= λ out. ok (canon ∷ out)
    ]

unfoldable pub clean_domains : (ℕ → ℕ) → Text → Result RequestError (List Text)
unfolding split_list clean_names
clean_domains lower csv = clean_names lower (split_list csv)

unfoldable pub clean_ips : Text → Result RequestError (List Text)
unfolding split_list clean_addresses
clean_ips csv = clean_addresses (split_list csv)

abbrev pub request : Text → Text → List Text → List Text → Request
request action user domains ips = record {
  version = version;
  action = action;
  domains = domains;
  ips = ips;
  target_user = user;
}

-- The zero value of an action, where none is chosen.
abbrev pub mutation : Options → Text
mutation o = if o.add then action_add else if o.remove then action_remove else []

unfoldable pub build_request : (ℕ → ℕ) → Options → Result RequestError Request
unfolding clean_domains clean_ips
build_request lower o =
    if o.show
    then ok (request action_show o.user [] [])
    else if o.status
    then ok (request action_status o.user [] [])
    else clean_domains lower o.name >>= λ domains. clean_ips o.ip >>= λ ips.
        if length domains == 0 && length ips == 0
        then err nothing_given
        else ok (request (mutation o) o.user domains ips)
