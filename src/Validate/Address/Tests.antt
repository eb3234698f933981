-- ===== src/Validate/Address/Tests.antt =====
-- Tests of the address functions.
use request_blocker.Shared.{◌≡◌, refl, some, none, [], ◌∷◌, true, false, ok, err}
use request_blocker.Text.{codes, itoa, trim_space, join, take, drop}
use request_blocker.Validate.Address.{parse_ip, ip_string, from4, normalize_ip, invalid_address}
use request_blocker.Shared.{contains}
use request_blocker.Validate.Address.Normal.{normalize_ip-canonical}

parse_examples :
    (parse_ip (codes "10.0.0.5") ≡ some (from4 (record { a = 10; b = 0; c = 0; d = 5 })))
    × (parse_ip (codes "10.0.0.05") ≡ none)
    × (parse_ip (codes "10.0.0.256") ≡ none)
    × (parse_ip (codes "10.0.0") ≡ none)
    × (parse_ip (codes "2001:db8::1") ≡ some (0x2001 ∷ 0xdb8 ∷ 0 ∷ 0 ∷ 0 ∷ 0 ∷ 0 ∷ 1 ∷ []))
    × (parse_ip (codes "fe80::1%eth0") ≡ none)
    × (parse_ip (codes "1:2:3:4:5:6:7::") ≡ some (1 ∷ 2 ∷ 3 ∷ 4 ∷ 5 ∷ 6 ∷ 7 ∷ 0 ∷ []))
    × (parse_ip (codes "1:2:3:4:5:6:7:8::") ≡ none)
    × (parse_ip (codes "::1::") ≡ none)
    × (parse_ip (codes "example.com") ≡ none)
unfolding parse_ip contains take drop
parse_examples = (refl, refl, refl, refl, refl, refl, refl, refl, refl, refl)

normalize_examples :
    (normalize_ip (codes " 93.184.216.34 ") ≡ ok (codes "93.184.216.34", false))
    × (normalize_ip (codes "2001:DB8:0:0:0:0:0:1") ≡ ok (codes "2001:db8::1", true))
    × (normalize_ip (codes "::ffff:1.2.3.4") ≡ ok (codes "1.2.3.4", false))
    × (normalize_ip (codes "1:0:0:2:0:0:0:3") ≡ ok (codes "1:0:0:2::3", true))
    × (normalize_ip (codes "::") ≡ ok (codes "::", true))
    × (normalize_ip (codes "not-an-ip") ≡ err (invalid_address (codes "not-an-ip")))
unfolding parse_ip contains take drop ip_string itoa trim_space join normalize_ip
normalize_examples = (refl, refl, refl, refl, refl, refl)

typed_v6 : normalize_ip (codes "2001:DB8:0:0:0:0:0:1") ≡ ok (codes "2001:db8::1", true)
typed_v6 = normalize_examples.1

normalize_ip-canonical_example :
    (parse_ip (codes "2001:db8::1") ≡ parse_ip (trim_space (codes "2001:DB8:0:0:0:0:0:1")))
    × (normalize_ip (codes "2001:db8::1") ≡ ok (codes "2001:db8::1", true))
normalize_ip-canonical_example =
    normalize_ip-canonical (codes "2001:DB8:0:0:0:0:0:1") (codes "2001:db8::1") true typed_v6
