-- ===== src/Text/Printed.antt =====
-- `Atoi` reads back what `Itoa` prints.
use request_blocker.Shared.{
  ℕ, zero, suc, ◌+◌, ◌/◌, ◌%◌, ◌≤◌, ◌<◌, ◌≡◌, ◌≢◌, ◌∙◌, refl, inl, inr, Bool-cases, ltb, Bool, true,
  false, some, [], All, ◌∷◌, ◌++◌, arith,
}
use request_blocker.Text.Codes.{Text}
use request_blocker.Text.Integers.{ℤ, pos, negsuc, IsInt64}
use request_blocker.Text.Pieces.{is_space}
use request_blocker.Text.Decimal.{digits, itoa, read_digits, read_number, atoi, signed}

read_last :
    (n : ℕ) (rest : Text) → read_digits ((b'0' + n % 10) ∷ rest) (n / 10) ≡ read_digits rest n
unfolding read_digits
read_last n rest = ground arith

read_digits-digits :
    (fuel n : ℕ) (rest : Text) → n < fuel → read_digits (digits fuel n rest) 0 ≡ read_digits rest n
unfolding digits
read_digits-digits zero n rest h = elim h [ ]
read_digits-digits (suc fuel) n rest h =
    ground (arith, read_digits-digits fuel (n / 10) ((b'0' + n % 10) ∷ rest), read_last n rest)

abbrev StartsWithDigit : Text → Type 0
StartsWithDigit [] = ⊥
StartsWithDigit (c ∷ s) = (b'0' ≤ c) × (c ≤ b'9')

digits-StartsWithDigit :
    (fuel n : ℕ) (rest : Text) → n < fuel → StartsWithDigit (digits fuel n rest)
unfolding digits
digits-StartsWithDigit zero n rest h = elim h [ ]
digits-StartsWithDigit (suc zero) zero rest h = ground arith
digits-StartsWithDigit (suc zero) (suc n) rest h = absurd (omega arith)
digits-StartsWithDigit (suc (suc fuel)) n rest h = elim (Bool-cases (ltb n 10)) [
  | inl e ↦ rw e (ground arith)
  | inr e ↦
      rw e (digits-StartsWithDigit (suc fuel) (n / 10) ((b'0' + n % 10) ∷ rest) (ground arith))
]

read_number-digits :
    (minus : Bool) (s : Text) (n : ℕ)
    → StartsWithDigit s
    → read_digits s 0 ≡ some n
    → read_number minus s ≡ signed minus n
unfolding read_number
read_number-digits minus [] n h e = elim h [ ]
read_number-digits minus (c ∷ s) n h e = rw (e, read_number)

atoi-digits : (s : Text) → StartsWithDigit s → atoi s ≡ read_number false s
unfolding atoi
atoi-digits [] h = elim h [ ]
atoi-digits (c ∷ s) h = ground arith

read_digits-nil : (n : ℕ) → read_digits [] n ≡ some n
unfolding read_digits
read_digits-nil n = refl

read_whole : (n : ℕ) → read_digits (digits (suc n) n []) 0 ≡ some n
read_whole n = read_digits-digits (suc n) n [] (omega arith) ∙ read_digits-nil n

atoi_minus : (s : Text) → atoi (b'-' ∷ s) ≡ read_number true s
unfolding atoi
atoi_minus s = refl

pub atoi-itoa : (z : ℤ) → IsInt64 z → atoi (itoa z) ≡ some z
unfolding itoa
atoi-itoa (pos n) h =
    let start = digits-StartsWithDigit (suc n) n [] (omega arith) in
    atoi-digits _ start ∙ read_number-digits false _ n start (read_whole n) ∙ ground arith
atoi-itoa (negsuc n) h =
    atoi_minus _
    ∙ read_number-digits true _ (suc n)
        (digits-StartsWithDigit (suc (suc n)) (suc n) [] (omega arith)) (read_whole (suc n))
    ∙ ground arith

append_head : (s t u : Text) (c : ℕ) → StartsWithDigit s → c < b'0' → s ++ t ≢ c ∷ u
append_head [] t u c h k = elim h [ ]
append_head (d ∷ s) t u c h k = λ e. ground arith

-- A printed number does not begin with a dot.
pub itoa-no_dot : (z : ℤ) (t u : Text) → itoa z ++ t ≢ b'.' ∷ u
unfolding itoa
itoa-no_dot (pos n) t u =
    append_head _ t u b'.' (digits-StartsWithDigit (suc n) n [] (omega arith)) (omega arith)
itoa-no_dot (negsuc n) t u = λ e. ground arith

pub itoa-injective : (a b : ℤ) → IsInt64 a → IsInt64 b → itoa a ≡ itoa b → a ≡ b
itoa-injective a b ha hb e = ground (arith, atoi-itoa a ha, atoi-itoa b hb)

digits-no_space :
    (fuel n : ℕ) (rest : Text)
    → All (λ c. is_space c ≡ false) rest
    → All (λ c. is_space c ≡ false) (digits fuel n rest)
unfolding digits is_space
digits-no_space zero n rest h = h
digits-no_space (suc fuel) n rest h = elim (Bool-cases (ltb n 10)) [
  | inl small ↦ rw small (ground arith, h)
  | inr large ↦ rw large (digits-no_space fuel (n / 10) ((b'0' + n % 10) ∷ rest) (ground arith, h))
]

pub itoa-no_space : (z : ℤ) → All (λ c. is_space c ≡ false) (itoa z)
unfolding itoa is_space
itoa-no_space (pos n) = digits-no_space (suc n) n [] tt
itoa-no_space (negsuc n) = (refl, digits-no_space (suc (suc n)) (suc n) [] tt)
