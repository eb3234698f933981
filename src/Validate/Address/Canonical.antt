-- ===== src/Validate/Address/Canonical.antt =====
-- A printed IPv6 address as the whole of `ParseIP` and of `NormalizeIP` sees it.
use request_blocker.Shared.{
  ℕ, ◌+◌, ◌≡◌, ◌⊎◌, ◌∙◌, refl, ap, true, false, none, some, List, [], ◌∷◌, ◌++◌, nat_eq, ◌==◌, All,
  All-append, length, arith, Bool-cases, inl, inr, contains, contains-append, ok, if◌then◌else◌,
}
use request_blocker.Text.{Text, take, drop, join, is_space, trim_space, trim_space_none}
use request_blocker.Validate.Address.Parse.{Ip, parse_v6, parse_by, parse_ip, to4}
use request_blocker.Validate.Address.Print.{hex, best_run, v6_string, ip_string, normalize_ip}
use request_blocker.Validate.Address.Hex.{IsHexDigit, hex-digits}
use request_blocker.Validate.Address.Groups.{IsGroup, colons}
use request_blocker.Validate.Address.Printed6.{
  gap_text, v6_text, v6_string-v6_text, parse_v6-v6_string, All-take, All-drop,
}

-- The characters of a printed IPv6 address.
abbrev IsV6Char : ℕ → Type 0
IsV6Char c = IsHexDigit c ⊎ (c ≡ b':')

hex-chars : (g : ℕ) → IsGroup g → All IsV6Char (hex g)
hex-chars g h = widen (hex g) (hex-digits g h).0
  where
    widen : (t : Text) → All IsHexDigit t → All IsV6Char t
    widen [] all = tt
    widen (c ∷ t) (d, all) = (inl d, widen t all)

colons-chars : (gs : List ℕ) → All IsGroup gs → All IsV6Char (colons gs)
unfolding join
colons-chars [] all = tt
colons-chars (g ∷ []) (h, all) = hex-chars g h
colons-chars (g ∷ g' ∷ gs) (h, all) =
    All-append IsV6Char (hex g) _ (hex-chars g h) (inr refl, colons-chars (g' ∷ gs) all)

gap_text-chars :
    (before behind : List ℕ)
    → All IsGroup before
    → All IsGroup behind
    → All IsV6Char (gap_text before behind)
gap_text-chars before behind h k =
    All-append IsV6Char (colons before) _ (colons-chars before h)
      (inr refl, (inr refl, colons-chars behind k))

v6_text-chars : (gs : List ℕ) (run : ℕ × ℕ) → All IsGroup gs → All IsV6Char (v6_text gs run)
v6_text-chars gs (start, l) all = elim (Bool-cases (l == 0)) [
  | inl none_left ↦ rw none_left (colons-chars gs all)
  | inr some_left ↦ rw some_left (
      gap_text-chars (take start gs) (drop (start + l) gs) (All-take gs start all)
        (All-drop gs (start + l) all))
]

with_colon : (s t : Text) → contains (s ++ b':' ∷ t) b':' ≡ true
unfolding contains
with_colon s t = rw (contains-append s (b':' ∷ t) b':') (ground arith)

colons-colon : (gs : List ℕ) → length gs ≡ 8 → contains (colons gs) b':' ≡ true
unfolding join
colons-colon [] h = absurd (omega (arith, h))
colons-colon (g ∷ []) h = absurd (omega (arith, h))
colons-colon (g ∷ g' ∷ gs) h = with_colon (hex g) _

-- With eight groups there is a colon.
v6_text-colon : (gs : List ℕ) (run : ℕ × ℕ) → length gs ≡ 8 → contains (v6_text gs run) b':' ≡ true
v6_text-colon gs (start, l) h = elim (Bool-cases (l == 0)) [
  | inl none_left ↦ rw none_left (colons-colon gs h)
  | inr some_left ↦ rw some_left (with_colon (colons (take start gs)) _)
]

no_zone : (t : Text) → All IsV6Char t → contains t b'%' ≡ false
unfolding contains
no_zone [] all = refl
no_zone (c ∷ t) (h, all) = ground (arith, h, no_zone t all)

V6-NoSpace : (t : Text) → All IsV6Char t → All (λ c. is_space c ≡ false) t
unfolding is_space
V6-NoSpace [] all = tt
V6-NoSpace (c ∷ t) (h, all) = (ground (arith, h), V6-NoSpace t all)

-- The first separator is a colon.
by_colon :
    (s t : Text)
    → All IsV6Char t
    → contains t b':' ≡ true
    → parse_by s t ≡ (if contains s b'%' then none else parse_v6 s)
unfolding parse_by contains
by_colon s [] all h = absurd (ground (arith, h))
by_colon s (c ∷ t) (inr colon, all) h = rw colon refl
by_colon s (c ∷ t) (inl digit, all) h =
    let later : contains t b':' ≡ true = ground (arith, digit, h) in
    by_digit digit ∙ by_colon s t all later
  where
    by_digit : IsHexDigit c → parse_by s (c ∷ t) ≡ parse_by s t
    by_digit d = ground (arith, d)

v6_string-chars : (gs : Ip) → All IsGroup gs → All IsV6Char (v6_string gs)
v6_string-chars gs all = rw (v6_string-v6_text gs) (v6_text-chars gs (best_run gs 0 (0, 0)) all)

v6_string-colon : (gs : Ip) → length gs ≡ 8 → contains (v6_string gs) b':' ≡ true
v6_string-colon gs h = rw (v6_string-v6_text gs) (v6_text-colon gs (best_run gs 0 (0, 0)) h)

pub parse_ip-v6_string :
    (gs : Ip) → length gs ≡ 8 → All IsGroup gs → parse_ip (v6_string gs) ≡ some gs
unfolding parse_ip
parse_ip-v6_string gs h all =
    let s = v6_string gs in
    by_colon s s (v6_string-chars gs all) (v6_string-colon gs h)
    ∙ rw (no_zone s (v6_string-chars gs all)) (parse_v6-v6_string gs h all)

pub ip_string-v6_string : (gs : Ip) → to4 gs ≡ none → ip_string gs ≡ v6_string gs
unfolding ip_string
ip_string-v6_string gs six = rw (six, ip_string) refl

normalize_ip-six :
    (s : Text) (gs : Ip)
    → trim_space s ≡ s
    → parse_ip s ≡ some gs
    → to4 gs ≡ none
    → normalize_ip s ≡ ok (ip_string gs, true)
unfolding normalize_ip
normalize_ip-six s gs trimmed parsed six = ground (arith, trimmed, parsed, six)

pub normalize_ip-v6_string :
    (gs : Ip)
    → length gs ≡ 8
    → All IsGroup gs
    → to4 gs ≡ none
    → normalize_ip (v6_string gs) ≡ ok (v6_string gs, true)
normalize_ip-v6_string gs h all six =
    let s = v6_string gs in
    normalize_ip-six s gs (trim_space_none s (V6-NoSpace s (v6_string-chars gs all)))
      (parse_ip-v6_string gs h all) six
    ∙ ap (λ t. ok (t, true)) (ip_string-v6_string gs six)
