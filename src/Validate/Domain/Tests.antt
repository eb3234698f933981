-- ===== src/Validate/Domain/Tests.antt =====
-- The names of internal/validate/validate_test.go, and others.
use request_blocker.Shared.{◌≡◌, ◌↔◌, refl, ok, err}
use request_blocker.Text.{codes, split, has_prefix, has_suffix}
use request_blocker.Validate.Address.{parse_ip}
use request_blocker.Validate.Domain.{
  empty_label, is_address, too_few_labels, outer_hyphen, validate_label, validate_domain,
}
use request_blocker.Validate.Domain.Hostname.{IsHostname, validate_domain_iff}

validate_domain_test :
    (validate_domain (codes "a-b.example.co") ≡ ok tt)
    × (validate_domain (codes "nodot") ≡ err (too_few_labels (codes "nodot")))
    × (validate_domain (codes "a..com") ≡ err (empty_label (codes "a..com")))
    × (validate_domain (codes "-a.com") ≡ err (outer_hyphen (codes "-a.com")))
    × (validate_domain (codes "10.0.0.5") ≡ err (is_address (codes "10.0.0.5")))
unfolding validate_domain validate_label parse_ip split has_prefix has_suffix
validate_domain_test = (refl, refl, refl, refl, refl)

validate_domain_example :
    (validate_domain (codes "example.com") ≡ ok tt) ↔ IsHostname (codes "example.com")
validate_domain_example = validate_domain_iff (codes "example.com")
