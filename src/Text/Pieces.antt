-- ===== src/Text/Pieces.antt =====
-- Cutting texts: slices, `TrimSpace`, `TrimSuffix`, `Split`, `Join`.
use mathlib.Core.List.{reverse, reverse-append, reverse-cons, reverse-reverse}
use request_blocker.Shared.{
  ℕ, zero, suc, ◌-◌, ◌≡◌, refl, Bool, true, false, ◌&&◌, ◌||◌, List, [], ◌∷◌, ◌++◌, arith, ◌==◌,
  nat_eq, leb, length, length-append, ap, All, All-append, if◌then◌else◌,
}
use request_blocker.Text.Codes.{Text}
use request_blocker.Text.Search.{has_prefix, has_suffix}

-- `unicode.IsSpace`.
unfoldable pub is_space : ℕ → Bool
is_space c =
    (leb 0x09 c && leb c 0x0d)
    || c == 0x20
    || c == 0x85
    || c == 0xa0
    || c == 0x1680
    || (leb 0x2000 c && leb c 0x200a)
    || c == 0x2028
    || c == 0x2029
    || c == 0x202f
    || c == 0x205f
    || c == 0x3000

drop_space : Text → Text
unfolding is_space
drop_space [] = []
drop_space (c ∷ s) = if is_space c then drop_space s else c ∷ s

unfoldable pub trim_space : Text → Text
unfolding drop_space
trim_space s = reverse (drop_space (reverse (drop_space s)))

-- `s[:n]` and `s[n:]`.
unfoldable pub take : ℕ → Text → Text
take zero s = []
take (suc n) [] = []
take (suc n) (c ∷ s) = c ∷ take n s

unfoldable pub drop : ℕ → Text → Text
drop zero s = s
drop (suc n) [] = []
drop (suc n) (c ∷ s) = drop n s

unfoldable pub trim_suffix : Text → Text → Text
unfolding take has_suffix
trim_suffix s p = if has_suffix s p then take (length s - length p) s else s

-- `Split` at a separator of one character: always at least one part. The step puts a character
-- in front of the parts of the text behind it.
abbrev pub split_step : ℕ → ℕ → List Text → List Text
split_step sep c [] = []
split_step sep c (p ∷ ps) = if c == sep then [] ∷ p ∷ ps else (c ∷ p) ∷ ps

unfoldable pub split : Text → ℕ → List Text
split [] sep = [] ∷ []
split (c ∷ s) sep = split_step sep c (split s sep)

unfoldable pub join : List Text → Text → Text
join [] sep = []
join (p ∷ []) sep = p
join (p ∷ q ∷ ps) sep = p ++ (sep ++ join (q ∷ ps) sep)

has_prefix-append : (p s : Text) → has_prefix (p ++ s) p ≡ true
unfolding has_prefix
has_prefix-append [] s = refl
has_prefix-append (c ∷ p) s = ground (arith, has_prefix-append p s)

pub has_suffix-append : (s p : Text) → has_suffix (s ++ p) p ≡ true
unfolding has_suffix
has_suffix-append s p = rw (reverse-append s p) (has_prefix-append (reverse p) (reverse s))

pub take-append : (s p : Text) (n : ℕ) → n ≡ length s → take n (s ++ p) ≡ s
unfolding take
take-append [] p zero h = refl
take-append [] p (suc n) h = absurd (omega (arith, h))
take-append (c ∷ s) p zero h = absurd (omega (arith, h))
take-append (c ∷ s) p (suc n) h = ap (λ t. c ∷ t) (take-append s p n (omega (arith, h)))

-- `TrimSuffix` takes off a suffix that was put on.
pub trim_suffix-append : (s p : Text) → trim_suffix (s ++ p) p ≡ s
unfolding trim_suffix
trim_suffix-append s p =
    rw (has_suffix-append s p) (take-append s p _ (omega (arith, length-append s p)))

drop_space_none : (s : Text) → All (λ c. is_space c ≡ false) s → drop_space s ≡ s
unfolding drop_space
drop_space_none [] _ = refl
drop_space_none (c ∷ s) (h, _) = rw h

All-reverse : (P : ℕ → Type 0) (s : Text) → All P s → All P (reverse s)
All-reverse P [] _ = tt
All-reverse P (c ∷ s) (h, hs) =
    rw (reverse-cons c s) (All-append P (reverse s) (c ∷ []) (All-reverse P s hs) (h, tt))

-- A text with no white space is trimmed to itself.
pub trim_space_none : (s : Text) → All (λ c. is_space c ≡ false) s → trim_space s ≡ s
unfolding trim_space
trim_space_none s h = rw (drop_space_none s h) (
    rw (drop_space_none (reverse s) (All-reverse (λ c. is_space c ≡ false) s h))
      (reverse-reverse s))
