-- ===== src/Validate/Domain/Hostname.antt =====
-- `ValidateDomain` accepts exactly the hostnames.
use request_blocker.Shared.{
  ℕ, ◌≤◌, ◌≡◌, ◌≢◌, ◌↔◌, false, none, List, [], ◌∷◌, All, nat_eq, length, arith, ok, ◌⊎◌,
}
use request_blocker.Text.{Text, utf8_len, split, has_prefix, has_suffix}
use request_blocker.Validate.Address.{parse_ip}
use request_blocker.Validate.Domain.{
  check_characters, validate_label, validate_labels, validate_domain,
}

-- A letter in lower case, a digit or a hyphen.
abbrev pub IsLabelCharacter : ℕ → Type 0
IsLabelCharacter c = ((b'a' ≤ c) × (c ≤ b'z')) ⊎ ((b'0' ≤ c) × (c ≤ b'9')) ⊎ (c ≡ b'-')

pub record IsLabel (l : Text) : Type 0 where
  pub not_empty : l ≢ []
  pub short : utf8_len l ≤ 63
  pub no_hyphen_first : has_prefix l (b'-' ∷ []) ≡ false
  pub no_hyphen_last : has_suffix l (b'-' ∷ []) ≡ false
  pub characters : All IsLabelCharacter l

-- A name of two labels or more, between dots, which is not an address.
pub record IsHostname (d : Text) : Type 0 where
  pub short : utf8_len d ≤ 253
  pub no_address : parse_ip d ≡ none
  pub two_labels : 2 ≤ length (split d b'.')
  pub labels : All IsLabel (split d b'.')

check_characters_iff : (l d : Text) → (check_characters l d ≡ ok tt) ↔ All IsLabelCharacter l
unfolding check_characters
check_characters_iff [] d = ground arith
check_characters_iff (c ∷ l) d = ground (arith, check_characters_iff l d)

pub validate_label_iff : (l d : Text) → (validate_label l d ≡ ok tt) ↔ IsLabel l
unfolding validate_label
validate_label_iff [] d = ground arith
validate_label_iff (c ∷ l) d = ground (arith, check_characters_iff (c ∷ l) d)

validate_labels_iff : (ls : List Text) (d : Text) → (validate_labels ls d ≡ ok tt) ↔ All IsLabel ls
unfolding validate_labels
validate_labels_iff [] d = ground arith
validate_labels_iff (l ∷ ls) d = ground (arith, validate_label_iff l d, validate_labels_iff ls d)

-- A text is accepted exactly when it is a hostname.
pub validate_domain_iff : (d : Text) → (validate_domain d ≡ ok tt) ↔ IsHostname d
unfolding validate_domain
validate_domain_iff [] = unfold split in ground arith
validate_domain_iff (c ∷ d) = ground (arith, validate_labels_iff (split (c ∷ d) b'.') (c ∷ d))
