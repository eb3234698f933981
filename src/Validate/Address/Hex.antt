-- ===== src/Validate/Address/Hex.antt =====
-- The groups of an IPv6 address: `ParseIP` reads back the hexadecimal digits that `String` prints.
use request_blocker.Shared.{
  ℕ, ◌+◌, ◌*◌, ◌/◌, ◌%◌, ◌≤◌, ◌<◌, ◌≡◌, ◌≢◌, ◌⊎◌, ◌∙◌, refl, ap, none, some, [], ◌∷◌, ◌++◌, nat_eq,
  All, ltb, arith, Bool-cases, inl, inr,
}
use request_blocker.Text.{Text}
use request_blocker.Validate.Address.Parse.{hex_value, read_hex}
use request_blocker.Validate.Address.Print.{hex_digit, hex}

-- The digits that are printed.
abbrev pub IsHexDigit : ℕ → Type 0
IsHexDigit c = ((b'0' ≤ c) × (c ≤ b'9')) ⊎ ((b'a' ≤ c) × (c ≤ b'f'))

hex_digit-IsHexDigit : (n : ℕ) → n < 16 → IsHexDigit (hex_digit n)
unfolding hex_digit
hex_digit-IsHexDigit n h = ground arith

hex_value-hex_digit : (n : ℕ) → n < 16 → hex_value (hex_digit n) ≡ some n
unfolding hex_value hex_digit
hex_value-hex_digit n h = ground arith

-- What may follow a group.
abbrev pub IsAfterGroup : Text → Type 0
IsAfterGroup [] = Unit
IsAfterGroup (c ∷ s) = hex_value c ≡ none

hex_step :
    (n off acc : ℕ) (s : Text)
    → n < 16
    → off < 4
    → acc * 16 + n ≤ 0xffff
    → read_hex (hex_digit n ∷ s) off acc ≡ read_hex s (off + 1) (acc * 16 + n)
unfolding read_hex
hex_step n off acc s h few small = ground (arith, hex_value-hex_digit n h)

hex_stop :
    (rest : Text) (off acc : ℕ) → IsAfterGroup rest → read_hex rest off acc ≡ some (acc, off, rest)
unfolding read_hex
hex_stop [] off acc h = refl
hex_stop (c ∷ rest) off acc h = rw (h, read_hex) refl

-- The digits of a group are those of its size.
hex_cases :
    (P : Text → Type 0) (n : ℕ)
    → n < 0x10000
    → (n < 0x10 → P (hex_digit (n % 16) ∷ []))
    → (n < 0x100 → P (hex_digit (n / 16 % 16) ∷ hex_digit (n % 16) ∷ []))
    → (n < 0x1000
        → P (hex_digit (n / 256 % 16) ∷ hex_digit (n / 16 % 16) ∷ hex_digit (n % 16) ∷ []))
    → P (
        hex_digit (n / 4096)
        ∷ hex_digit (n / 256 % 16)
        ∷ hex_digit (n / 16 % 16)
        ∷ hex_digit (n % 16)
        ∷ [])
    → P (hex n)
unfolding hex
hex_cases P n h one two three four = elim (Bool-cases (ltb n 0x10)) [
  | inl a ↦ rw a (one (ground arith))
  | inr a ↦ elim (Bool-cases (ltb n 0x100)) [
    | inl b ↦ rw (a, b) (two (ground arith))
    | inr b ↦ elim (Bool-cases (ltb n 0x1000)) [
      | inl c ↦ rw (a, b, c) (three (ground arith))
      | inr c ↦ rw (a, b, c) four
    ]
  ]
]

abbrev ReadsHex : ℕ → Text → Text → Type 0
ReadsHex n rest text = (len : ℕ) × (1 ≤ len) × (read_hex (text ++ rest) 0 0 ≡ some (n, len, rest))

-- The digits are at an end, and their value is that of the group.
hex_end :
    (n off acc : ℕ) (rest : Text)
    → IsAfterGroup rest
    → acc ≡ n
    → read_hex rest off acc ≡ some (n, off, rest)
hex_end n off acc rest after is = hex_stop rest off acc after ∙ ap (λ v. some (v, off, rest)) is

pub read_hex-hex : (n : ℕ) (rest : Text) → n < 0x10000 → IsAfterGroup rest → ReadsHex n rest (hex n)
read_hex-hex n rest h after =
    let d0 = n % 16 in
    let d1 = n / 16 % 16 in
    let d2 = n / 256 % 16 in
    let d3 = n / 4096 in
    hex_cases (ReadsHex n rest) n h
      (λ small. (
        1,
        omega arith,
        hex_step d0 0 0 rest (omega arith) (omega arith) (omega arith)
            ∙ hex_end n 1 (0 * 16 + d0) rest after (omega arith),
      ))
      (λ small. (
        2,
        omega arith,
        hex_step d1 0 0 _ (omega arith) (omega arith) (omega arith)
            ∙ hex_step d0 1 (0 * 16 + d1) rest (omega arith) (omega arith) (omega arith)
            ∙ hex_end n 2 ((0 * 16 + d1) * 16 + d0) rest after (omega arith),
      ))
      (λ small. (
        3,
        omega arith,
        hex_step d2 0 0 _ (omega arith) (omega arith) (omega arith)
            ∙ hex_step d1 1 (0 * 16 + d2) _ (omega arith) (omega arith) (omega arith)
            ∙ hex_step d0 2 ((0 * 16 + d2) * 16 + d1) rest (omega arith) (omega arith) (omega arith)
            ∙ hex_end n 3 (((0 * 16 + d2) * 16 + d1) * 16 + d0) rest after (omega arith),
      ))
      (
        4,
        omega arith,
        hex_step d3 0 0 _ (omega arith) (omega arith) (omega arith)
            ∙ hex_step d2 1 (0 * 16 + d3) _ (omega arith) (omega arith) (omega arith)
            ∙ hex_step d1 2 ((0 * 16 + d3) * 16 + d2) _ (omega arith) (omega arith) (omega arith)
            ∙ hex_step d0 3 (((0 * 16 + d3) * 16 + d2) * 16 + d1) rest (omega arith) (omega arith)
                (omega arith)
            ∙ hex_end n 4 ((((0 * 16 + d3) * 16 + d2) * 16 + d1) * 16 + d0) rest after
                (omega arith),
      )

abbrev Digits : Text → Type 0
Digits t = All IsHexDigit t × (t ≢ [])

pub hex-digits : (n : ℕ) → n < 0x10000 → All IsHexDigit (hex n) × (hex n ≢ [])
hex-digits n h =
    let d = λ (m : ℕ) (k : m < 16). hex_digit-IsHexDigit m k in
    hex_cases Digits n h (λ small. ((d (n % 16) (omega arith), tt), λ e. cc))
      (λ small. ((d (n / 16 % 16) (omega arith), (d (n % 16) (omega arith), tt)), λ e. cc))
      (λ small. (
        (
          d (n / 256 % 16) (omega arith),
          (d (n / 16 % 16) (omega arith), (d (n % 16) (omega arith), tt)),
        ),
        λ e. cc,
      ))
      (
        (
          d (n / 4096) (omega arith),
          (
            d (n / 256 % 16) (omega arith),
            (d (n / 16 % 16) (omega arith), (d (n % 16) (omega arith), tt)),
          ),
        ),
        λ e. cc,
      )
