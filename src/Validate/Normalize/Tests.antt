-- ===== src/Validate/Normalize/Tests.antt =====
-- The inputs of internal/validate/validate_test.go, and others.
use request_blocker.Shared.{ℕ, ◌≡◌, refl, ok, ◌++◌, ◌∷◌, arith, contains, []}
use request_blocker.Text.{
  codes, index, last_index, count, take, drop, trim_space, trim_suffix, split, has_prefix,
  has_suffix,
}
use request_blocker.Validate.Address.{parse_ip}
use request_blocker.Validate.Normalize.{normalize_domain}
use request_blocker.Validate.Normalize.Fixed.{normalize_domain-valid}
use request_blocker.Validate.Normalize.Userinfo.{normalize_domain-userinfo}
use request_blocker.Validate.Domain.{validate_domain, validate_label}

abbrev ascii : ℕ → ℕ
ascii c = c

normalize_examples :
    (normalize_domain ascii (codes "Example.COM") ≡ codes "example.com")
    × (normalize_domain ascii (codes "https://example.com/path?x=1#f") ≡ codes "example.com")
    × (normalize_domain ascii (codes "  user:pw@example.com:8080/a ") ≡ codes "example.com")
    × (normalize_domain ascii (codes "example.com.") ≡ codes "example.com")
    × (normalize_domain ascii (codes "2001:db8::1") ≡ codes "2001:db8::1")
    × (normalize_domain ascii (codes "   ") ≡ [])
unfolding normalize_domain contains index last_index count take drop trim_space trim_suffix
normalize_examples = (refl, refl, refl, refl, refl, refl)

valid : validate_domain (codes "evil.com") ≡ ok tt
unfolding validate_domain validate_label parse_ip split has_prefix has_suffix
valid = refl

normalize_domain-valid_example : normalize_domain ascii (codes "evil.com") ≡ codes "evil.com"
normalize_domain-valid_example = normalize_domain-valid ascii (codes "evil.com") valid

-- The host of `https://example.com/@evil.com` is example.com.
normalize_domain-userinfo_example :
    normalize_domain ascii (codes "example.com/" ++ b'@' ∷ codes "evil.com") ≡ codes "evil.com"
normalize_domain-userinfo_example =
    normalize_domain-userinfo ascii (codes "example.com/") (codes "evil.com") ground arith valid
