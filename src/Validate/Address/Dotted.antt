-- ===== src/Validate/Address/Dotted.antt =====
-- IPv4 addresses: what `String` prints, `ParseIP` reads back.
use request_blocker.Shared.{
  ℕ, zero, suc, ◌+◌, ◌-◌, ◌*◌, ◌/◌, ◌%◌, ◌≤◌, ◌<◌, ◌≡◌, ◌∙◌, refl, sym, ap, false, ◌&&◌, some, List,
  [], ◌∷◌, ◌++◌, append-nil, nat_eq, ◌==◌, All, All-append, length, ltb, arith, ok, Bool-cases, inl,
  inr,
}
use request_blocker.Text.{Text, pos, itoa, digits, join, is_space, trim_space_none}
use request_blocker.Validate.Address.Parse.{
  Ip4, from4, to4, v4_fields, parse_v4, parse_by, parse_ip,
}
use request_blocker.Validate.Address.Print.{v4_string, normalize_ip}

one_digit : (f n : ℕ) (rest : Text) → n < 10 → digits (suc f) n rest ≡ (b'0' + n) ∷ rest
unfolding digits
one_digit f n rest h = ground arith

more_digits :
    (f n : ℕ) (rest : Text)
    → 10 ≤ n
    → digits (suc f) n rest ≡ digits f (n / 10) ((b'0' + n % 10) ∷ rest)
unfolding digits
more_digits f n rest h = ground arith

itoa_pos : (n : ℕ) → itoa (pos n) ≡ digits (suc n) n []
unfolding itoa
itoa_pos n = refl

itoa_two : (n : ℕ) → 10 ≤ n → n < 100 → itoa (pos n) ≡ (b'0' + n / 10) ∷ (b'0' + n % 10) ∷ []
itoa_two zero h k = absurd (omega arith)
itoa_two (suc m) h k =
    itoa_pos (suc m) ∙ more_digits (suc m) (suc m) [] h ∙ one_digit m (suc m / 10) _ (omega arith)

itoa_three :
    (n : ℕ)
    → 100 ≤ n
    → n < 1000
    → itoa (pos n) ≡ (b'0' + n / 10 / 10) ∷ (b'0' + n / 10 % 10) ∷ (b'0' + n % 10) ∷ []
itoa_three zero h k = absurd (omega arith)
itoa_three (suc zero) h k = absurd (omega arith)
itoa_three (suc (suc m)) h k =
    itoa_pos (suc (suc m))
    ∙ more_digits (suc (suc m)) (suc (suc m)) [] (omega arith)
    ∙ more_digits (suc m) (suc (suc m) / 10) _ (omega arith)
    ∙ one_digit m (suc (suc m) / 10 / 10) _ (omega arith)

-- The digits of an octet are those of its size.
octet_cases :
    (P : Text → Type 0) (n : ℕ)
    → n < 256
    → (n < 10 → P ((b'0' + n) ∷ []))
    → (10 ≤ n → n < 100 → P ((b'0' + n / 10) ∷ (b'0' + n % 10) ∷ []))
    → (100 ≤ n → P ((b'0' + n / 10 / 10) ∷ (b'0' + n / 10 % 10) ∷ (b'0' + n % 10) ∷ []))
    → P (itoa (pos n))
octet_cases P n h one two three = elim (Bool-cases (ltb n 10)) [
  | inl small ↦ rw (itoa_pos n ∙ one_digit n n [] (ground arith)) (one (ground arith))
  | inr large ↦ elim (Bool-cases (ltb n 100)) [
    | inl middle ↦ rw (itoa_two n (ground arith) (ground arith)) (two (ground arith) (ground arith))
    | inr top ↦ rw (itoa_three n (ground arith) (omega arith)) (three (ground arith))
  ]
]

digit_step :
    (ch val dig_len : ℕ) (s : Text) (done : List ℕ)
    → b'0' ≤ ch
    → ch ≤ b'9'
    → (dig_len == 1 && val == 0) ≡ false
    → val * 10 + (ch - b'0') ≤ 255
    → v4_fields (ch ∷ s) val dig_len done ≡ v4_fields s (val * 10 + (ch - b'0')) (dig_len + 1) done
unfolding v4_fields
digit_step ch val dig_len s done h k fresh small = ground arith

-- Reading a printed octet gives its value, and at least one digit was read.
abbrev Reads : ℕ → List ℕ → Text → Text → Type 0
Reads n done rest text =
    (len : ℕ) × (1 ≤ len) × (v4_fields (text ++ rest) 0 0 done ≡ v4_fields rest n len done)

read_octet : (n : ℕ) (done : List ℕ) (rest : Text) → n < 256 → Reads n done rest (itoa (pos n))
read_octet n done rest h =
    octet_cases (Reads n done rest) n h
      (λ small. (
        1,
        omega arith,
        digit_step (b'0' + n) 0 0 rest done (omega arith) (omega arith) refl (omega arith)
            ∙ ground arith,
      ))
      (λ low high. (
        2,
        omega arith,
        digit_step (b'0' + n / 10) 0 0 _ done (omega arith) (omega arith) refl (omega arith)
            ∙ digit_step (b'0' + n % 10) _ _ rest done (omega arith) (omega arith) (ground arith)
                (omega arith)
            ∙ ground arith,
      ))
      (λ low. (
        3,
        omega arith,
        digit_step (b'0' + n / 10 / 10) 0 0 _ done (omega arith) (omega arith) refl (omega arith)
            ∙ digit_step (b'0' + n / 10 % 10) _ _ _ done (omega arith) (omega arith) (ground arith)
                (omega arith)
            ∙ digit_step (b'0' + n % 10) _ _ rest done (omega arith) (omega arith) (ground arith)
                (omega arith)
            ∙ ground arith,
      ))

read_dot :
    (val len : ℕ) (s : Text) (done : List ℕ)
    → 1 ≤ len
    → length done < 3
    → v4_fields (b'.' ∷ s) val len done ≡ v4_fields s 0 0 (done ++ val ∷ [])
unfolding v4_fields
read_dot val len s done h k = ground arith

read_end :
    (val len : ℕ) (done : List ℕ)
    → 1 ≤ len
    → length done ≡ 3
    → v4_fields [] val len done ≡ some (done ++ val ∷ [])
unfolding v4_fields
read_end val len done h k = ground arith

-- An octet and its dot.
read_field :
    (n : ℕ) (done : List ℕ) (rest : Text)
    → n < 256
    → length done < 3
    → v4_fields (itoa (pos n) ++ b'.' ∷ rest) 0 0 done ≡ v4_fields rest 0 0 (done ++ n ∷ [])
read_field n done rest h k =
    let (len, some_digit, e) = read_octet n done (b'.' ∷ rest) h in
    e ∙ read_dot n len rest done some_digit k

read_last :
    (n : ℕ) (done : List ℕ)
    → n < 256
    → length done ≡ 3
    → v4_fields (itoa (pos n)) 0 0 done ≡ some (done ++ n ∷ [])
read_last n done h k =
    let (len, some_digit, e) = read_octet n done [] h in
    ap (λ t. v4_fields t 0 0 done) (sym (append-nil (itoa (pos n))))
    ∙ e
    ∙ read_end n len done some_digit k

pub record IsOctets (q : Ip4) : Type 0 where
  pub a : q.a < 256
  pub b : q.b < 256
  pub c : q.c < 256
  pub d : q.d < 256

fields-v4_string :
    (q : Ip4) → IsOctets q → v4_fields (v4_string q) 0 0 [] ≡ some (q.a ∷ q.b ∷ q.c ∷ q.d ∷ [])
unfolding v4_string join
fields-v4_string q h =
    read_field q.a [] _ h.a (omega arith)
    ∙ read_field q.b (q.a ∷ []) _ h.b (omega arith)
    ∙ read_field q.c (q.a ∷ q.b ∷ []) _ h.c (omega arith)
    ∙ read_last q.d (q.a ∷ q.b ∷ q.c ∷ []) h.d (omega arith)

by_digit : (s t : Text) (ch : ℕ) → b'0' ≤ ch → ch ≤ b'9' → parse_by s (ch ∷ t) ≡ parse_by s t
unfolding parse_by
by_digit s t ch h k = ground arith

by_dot : (s t : Text) → parse_by s (b'.' ∷ t) ≡ parse_v4 s
unfolding parse_by
by_dot s t = refl

by_octet : (s rest : Text) (n : ℕ) → n < 256 → parse_by s (itoa (pos n) ++ rest) ≡ parse_by s rest
by_octet s rest n h =
    octet_cases (λ t. parse_by s (t ++ rest) ≡ parse_by s rest) n h
      (λ small. by_digit s _ _ (omega arith) (omega arith))
      (λ low high.
        by_digit s _ _ (omega arith) (omega arith) ∙ by_digit s _ _ (omega arith) (omega arith))
      (λ low.
        by_digit s _ _ (omega arith) (omega arith)
        ∙ by_digit s _ _ (omega arith) (omega arith)
        ∙ by_digit s _ _ (omega arith) (omega arith))

by_v4_string : (s : Text) (q : Ip4) → IsOctets q → parse_by s (v4_string q) ≡ parse_v4 s
unfolding v4_string join
by_v4_string s q h = by_octet s _ q.a h.a ∙ by_dot s _

-- A printed IPv4 address is read back as that address.
pub parse_ip-v4_string : (q : Ip4) → IsOctets q → parse_ip (v4_string q) ≡ some (from4 q)
unfolding parse_ip
parse_ip-v4_string q h = by_v4_string (v4_string q) q h ∙ rw (fields-v4_string q h, parse_v4)

pub to4-from4 : (q : Ip4) → IsOctets q → to4 (from4 q) ≡ some q
unfolding to4
to4-from4 q h = ground arith

abbrev NoSpace : Text → Type 0
NoSpace = All (λ c. is_space c ≡ false)

itoa-NoSpace : (n : ℕ) → n < 256 → NoSpace (itoa (pos n))
unfolding is_space
itoa-NoSpace n h =
    octet_cases NoSpace n h (λ small. ground arith) (λ low high. ground arith) (λ low. ground arith)

v4_string-NoSpace : (q : Ip4) → IsOctets q → NoSpace (v4_string q)
unfolding v4_string join is_space
v4_string-NoSpace q h = All-append _ (itoa (pos q.a)) _ (itoa-NoSpace q.a h.a) (
  refl,
  All-append _ (itoa (pos q.b)) _ (itoa-NoSpace q.b h.b)
      (refl, All-append _ (itoa (pos q.c)) _ (itoa-NoSpace q.c h.c) (refl, itoa-NoSpace q.d h.d)),
)

-- A printed IPv4 address is in canonical form: it is accepted, as IPv4, and comes back unchanged.
pub normalize_ip-v4_string :
    (q : Ip4) → IsOctets q → normalize_ip (v4_string q) ≡ ok (v4_string q, false)
unfolding normalize_ip
normalize_ip-v4_string q h = ground (
  arith,
  trim_space_none (v4_string q) (v4_string-NoSpace q h),
  parse_ip-v4_string q h,
  to4-from4 q h,
)
