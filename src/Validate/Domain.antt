-- ===== src/Validate/Domain.antt =====
-- `ValidateDomain` and `validateLabel` of internal/validate/validate.go.
pub mod Hostname
pub mod Tests
use mathlib.Core.List.{reverse}
use request_blocker.Shared.{
  ℕ, Bool, true, false, ◌||◌, ◌&&◌, not, Option, none, some, List, [], ◌∷◌, nat_eq, ◌==◌, length,
  ltb, leb, is_some, Result, ok, err, ◌>>=◌, if◌then◌else◌,
}
use request_blocker.Text.{Text, utf8_len, split, has_prefix, has_suffix}
use request_blocker.Validate.Address.{parse_ip}

abbrev pub max_items_per_request : ℕ
max_items_per_request = 256

abbrev pub max_domain_len : ℕ
max_domain_len = 253

abbrev pub max_label_len : ℕ
max_label_len = 63

-- The errors, each with the domain that its message quotes.
pub data DomainError : Type 0 where
  empty_domain : DomainError
  domain_too_long is_address too_few_labels empty_label label_too_long outer_hyphen :
      Text → DomainError
  invalid_character : Text → ℕ → DomainError

pub is_alnum : ℕ → Bool
is_alnum r = (leb b'a' r && leb r b'z') || (leb b'0' r && leb r b'9')

check_characters : Text → Text → Result DomainError (Unit {0})
unfolding is_alnum
check_characters [] d = ok tt
check_characters (r ∷ l) d =
    if not (is_alnum r) && not (r == b'-')
    then err (invalid_character d r)
    else check_characters l d

unfoldable pub validate_label : Text → Text → Result DomainError (Unit {0})
unfolding check_characters
validate_label l d =
    if length l == 0
    then err (empty_label d)
    else if ltb max_label_len (utf8_len l)
    then err (label_too_long d)
    else if has_prefix l (b'-' ∷ []) || has_suffix l (b'-' ∷ [])
    then err (outer_hyphen d)
    else check_characters l d

validate_labels : List Text → Text → Result DomainError (Unit {0})
validate_labels [] d = ok tt
validate_labels (l ∷ ls) d = validate_label l d >>= λ _. validate_labels ls d

unfoldable pub validate_domain : Text → Result DomainError (Unit {0})
unfolding validate_labels
validate_domain d =
    if length d == 0
    then err empty_domain
    else if ltb max_domain_len (utf8_len d)
    then err (domain_too_long d)
    else if is_some (parse_ip d)
    then err (is_address d)
    else if ltb (length (split d b'.')) 2
    then err (too_few_labels d)
    else validate_labels (split d b'.') d
