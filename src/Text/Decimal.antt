-- ===== src/Text/Decimal.antt =====
-- `strconv.Itoa` and `strconv.Atoi`.
use request_blocker.Shared.{
  ℕ, zero, suc, ◌+◌, ◌-◌, ◌*◌, ◌/◌, ◌%◌, ◌^◌, ◌≡◌, refl, Bool, true, false, ◌&&◌, Option, none,
  some, [], ◌∷◌, ltb, leb, ◌==◌, nat_eq, if◌then◌else◌,
}
use request_blocker.Text.Codes.{Text, codes}
use request_blocker.Text.Integers.{ℤ, pos, negsuc, negate}

-- The digits of `n` in front of `rest`; `n + 1` rounds of fuel are enough.
unfoldable pub digits : ℕ → ℕ → Text → Text
digits zero n rest = rest
digits (suc fuel) n rest =
    let more = digits fuel (n / 10) ((b'0' + n % 10) ∷ rest) in
    if ltb n 10 then (b'0' + n) ∷ rest else more

unfoldable pub itoa : ℤ → Text
unfolding digits
itoa (pos n) = digits (suc n) n []
itoa (negsuc n) = b'-' ∷ digits (suc (suc n)) (suc n) []

unfoldable pub read_digits : Text → ℕ → Option ℕ
read_digits [] n = some n
read_digits (c ∷ s) n =
    if leb b'0' c && leb c b'9' then read_digits s (n * 10 + (c - b'0')) else none

-- The range of `int`.
abbrev pub signed : Bool → ℕ → Option ℤ
signed true n = if leb n (2 ^ 63) then some (negate n) else none
signed false n = if ltb n (2 ^ 63) then some (pos n) else none

unfoldable pub read_number : Bool → Text → Option ℤ
unfolding read_digits
read_number minus [] = none
read_number minus (c ∷ s) = elim (read_digits (c ∷ s) 0) [ none ↦ none | some n ↦ signed minus n ]

unfoldable pub atoi : Text → Option ℤ
unfolding read_number
atoi [] = none
atoi (c ∷ s) =
    if c == b'-'
    then read_number true s
    else if c == b'+'
    then read_number false s
    else read_number false (c ∷ s)

itoa_examples : (itoa (pos 1000) ≡ codes "1000") × (itoa (negsuc 4) ≡ codes "-5")
unfolding itoa
itoa_examples = (refl, refl)

atoi_examples :
    (atoi (codes "007") ≡ some (pos 7))
    × (atoi (codes "-12") ≡ some (negsuc 11))
    × (atoi (codes "alice") ≡ none)
    × (atoi (codes "9223372036854775808") ≡ none)
unfolding atoi
atoi_examples = (refl, refl, refl, refl)
