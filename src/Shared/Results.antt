-- ===== src/Shared/Results.antt =====
-- A value or an error, as Go's `(T, error)`.
use mathlib.Core.Path.{◌≡◌, refl}
use mathlib.Core.Logic.{◌⊎◌, inl, inr}

pub data Result {ℓ κ} (Err : Type κ) (T : Type ℓ) : Type (ℓ ⊔ κ) where
  err : Err → Result Err T
  ok : T → Result Err T

pub Result-cases {ℓ κ} :
    {Err : Type κ} {T : Type ℓ} (r : Result Err T)
    → ((x : Err) × (r ≡ err x)) ⊎ ((t : T) × (r ≡ ok t))
Result-cases (err x) = inl (x, refl)
Result-cases (ok t) = inr (t, refl)

-- An early return on an error.
infixl 5 ◌>>=◌
abbrev pub ◌>>=◌ {ℓ κ ι} :
    {E : Type ι} {A : Type ℓ} {B : Type κ} → Result E A → (A → Result E B) → Result E B
err x >>= next = err x
ok t >>= next = next t

pub >>=-eq-ok {ℓ κ ι} :
    {E : Type ι} {A : Type ℓ} {B : Type κ} (m : Result E A) (next : A → Result E B) {b : B}
    → (m >>= next) ≡ ok b
    → (a : A) × (m ≡ ok a) × (next a ≡ ok b)
>>=-eq-ok (err x) next h = cc
>>=-eq-ok (ok t) next h = (t, refl, h)
