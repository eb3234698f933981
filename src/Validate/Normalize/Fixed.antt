-- ===== src/Validate/Normalize/Fixed.antt =====
-- What normalization does to a name that is already valid, and to a text with userinfo.
use request_blocker.Shared.{
  ℕ, ◌≡◌, ◌∙◌, refl, false, ◌⊎◌, inl, inr, List, [], ◌∷◌, All, nat_eq, contains, length, arith, ok,
  Bool-cases,
}
use request_blocker.Text.{
  Text, codes, index-lacks, last_index-lacks, split, is_space, trim_space_none, trim_suffix,
  has_suffix, has_suffix-ends_with, ends_with, split-EndsEmpty, EndsEmpty, All-split, All-lacks,
}
use request_blocker.Validate.Domain.{validate_domain}
use request_blocker.Validate.Domain.Hostname.{
  IsLabel, IsLabelCharacter, IsHostname, validate_domain_iff,
}
use request_blocker.Validate.Normalize.{
  to_lower, strip_scheme, strip_userinfo, strip_from, strip_port, normalize_domain,
}

-- The characters of a hostname.
abbrev pub IsHostCharacter : ℕ → Type 0
IsHostCharacter c = IsLabelCharacter c ⊎ (c ≡ b'.')

labels-characters : (ls : List Text) → All IsLabel ls → All (All IsLabelCharacter) ls
labels-characters [] _ = tt
labels-characters (l ∷ ls) (h, hs) = (h.characters, labels-characters ls hs)

pub hostname-characters : (d : Text) → IsHostname d → All IsHostCharacter d
hostname-characters d h =
    All-split IsLabelCharacter b'.' d (labels-characters (split d b'.') h.labels)

not_last_empty : (ls : List Text) → All IsLabel ls → EndsEmpty ls → ⊥
not_last_empty [] _ e = e
not_last_empty (p ∷ []) _ e = e
not_last_empty (p ∷ q ∷ []) (_, (hq, _)) e = hq.not_empty e
not_last_empty (p ∷ q ∷ r ∷ ls) (_, hs) e = not_last_empty (q ∷ r ∷ ls) hs e

pub no_dot_last : (d : Text) → IsHostname d → has_suffix d (codes ".") ≡ false
no_dot_last d h = has_suffix-ends_with d b'.' ∙ elim (Bool-cases (ends_with d b'.')) [
  | inl dot ↦ absurd (not_last_empty (split d b'.') h.labels (split-EndsEmpty d b'.' dot))
  | inr other ↦ other
]

map-lower_character : (lower : ℕ → ℕ) (d : Text) → All IsHostCharacter d → to_lower lower d ≡ d
unfolding to_lower
map-lower_character lower [] _ = refl
map-lower_character lower (c ∷ d) (h, hs) = ground (arith, map-lower_character lower d hs)

All-no_space : (d : Text) → All IsHostCharacter d → All (λ c. is_space c ≡ false) d
unfolding is_space
All-no_space [] _ = tt
All-no_space (c ∷ d) (h, hs) = (ground arith, All-no_space d hs)

module _ (d : Text) (h : All IsHostCharacter d) where
  lacks : (x : ℕ) → ¬ IsHostCharacter x → contains d x ≡ false
  lacks x no_x = All-lacks IsHostCharacter x d no_x h

  strip_scheme_none : strip_scheme d ≡ d
  unfolding strip_scheme
  strip_scheme_none =
      rw (index-lacks d b':' (codes "//") (lacks b':' (λ k. ground arith)), strip_scheme)

  strip_userinfo_none : strip_userinfo d ≡ d
  unfolding strip_userinfo
  strip_userinfo_none =
      rw (last_index-lacks d b'@' (lacks b'@' (λ k. ground arith)), strip_userinfo)

  pub strip_from_none : strip_from d (b'/' ∷ b'?' ∷ b'#' ∷ []) ≡ d
  unfolding strip_from
  strip_from_none = ground (
    arith,
    index-lacks d b'/' [] (lacks b'/' (λ k. ground arith)),
    index-lacks d b'?' [] (lacks b'?' (λ k. ground arith)),
    index-lacks d b'#' [] (lacks b'#' (λ k. ground arith)),
  )

  pub strip_port_none : strip_port d ≡ d
  unfolding strip_port
  strip_port_none = ground (
    arith,
    lacks b':' (λ k. ground arith),
    last_index-lacks d b':' (lacks b':' (λ k. ground arith)),
  )

pub trim_suffix_none : (d p : Text) → has_suffix d p ≡ false → trim_suffix d p ≡ d
unfolding trim_suffix
trim_suffix_none d p h = rw h

-- Whatever the Unicode table for lower case, a name that validation accepts is its own normal
-- form.
pub normalize_domain-valid :
    (lower : ℕ → ℕ) (d : Text) → validate_domain d ≡ ok tt → normalize_domain lower d ≡ d
unfolding normalize_domain
normalize_domain-valid lower d h =
    let name = (validate_domain_iff d).0 h in
    let chars = hostname-characters d name in
    ground (
      arith,
      trim_space_none d (All-no_space d chars),
      map-lower_character lower d chars,
      strip_scheme_none d chars,
      strip_userinfo_none d chars,
      strip_from_none d chars,
      strip_port_none d chars,
      trim_suffix_none d (codes ".") (no_dot_last d name),
      empty d,
    )
  where
    empty : (t : Text) → length t ≡ 0 → t ≡ []
    empty [] _ = refl
    empty (c ∷ t) e = absurd (omega arith)
