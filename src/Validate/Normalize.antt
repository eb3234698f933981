-- ===== src/Validate/Normalize.antt =====
-- `NormalizeDomain` of internal/validate/validate.go.
pub mod Fixed
pub mod Userinfo
pub mod Tests
use request_blocker.Shared.{
  ℕ, ◌+◌, Bool, true, false, ◌||◌, not, Option, none, some, List, [], ◌∷◌, map, nat_eq, ◌==◌,
  contains, length, ltb, leb, ◌&&◌, if◌then◌else◌,
}
use request_blocker.Text.{
  Text, codes, index, last_index, count, take, drop, trim_space, trim_suffix,
}

-- `unicode.ToLower` on one character: `lower` is its table above ASCII.
pub lower_character : (ℕ → ℕ) → ℕ → ℕ
lower_character lower c =
    if ltb c 0x80 then (if leb b'A' c && leb c b'Z' then c + 32 else c) else lower c

to_lower : (ℕ → ℕ) → Text → Text
unfolding lower_character
to_lower lower s = map (lower_character lower) s

strip_scheme : Text → Text
strip_scheme d = elim (index d (codes "://")) [ none ↦ d | some i ↦ drop (i + 3) d ]

strip_userinfo : Text → Text
strip_userinfo d = elim (last_index d b'@') [ none ↦ d | some i ↦ drop (i + 1) d ]

pub strip_from : Text → List ℕ → Text
strip_from d [] = d
strip_from d (sep ∷ seps) =
    strip_from (elim (index d (sep ∷ [])) [ none ↦ d | some i ↦ take i d ]) seps

pub strip_port : Text → Text
strip_port d =
    let without : Text = elim (last_index d b':') [ none ↦ d | some i ↦ take i d ] in
    if not (contains d b':') || count d b':' == 1 then without else d

unfoldable pub normalize_domain : (ℕ → ℕ) → Text → Text
unfolding to_lower strip_scheme strip_userinfo strip_from strip_port
normalize_domain lower input =
    let d = trim_space input in
    if length d == 0
    then []
    else trim_suffix
        (strip_port
          (strip_from (strip_userinfo (strip_scheme (to_lower lower d))) (b'/' ∷ b'?' ∷ b'#' ∷ [])))
        (codes ".")
