-- ===== src/Shared/Order.antt =====
-- Total orders as an instance, `sort` of Go's package sort, and lists in canonical form.
use request_blocker.Shared.Tests.{if◌then◌else◌, Bool-cases}
use request_blocker.Shared.Equality.{Eq, ◌==◌, ==-refl}
use request_blocker.Shared.Lists.{All, contains}
use mathlib.Core.Path.{◌≡◌, refl, ap₂, sym, ◌∙◌}
use mathlib.Core.Logic.{inl, inr}
use mathlib.Core.Bool.{Bool, true, false, ◌||◌}
use mathlib.Core.List.{List, [], ◌∷◌}
use native.Mathlib.Omega.{arith}

pub record Ord {ℓ} (A : Type ℓ) : Type ℓ where
  pub le : A → A → Bool
  pub le_total : (a b : A) → le a b ≡ false → le b a ≡ true
  pub le_trans : (a b c : A) → le a b ≡ true → le b c ≡ true → le a c ≡ true
  pub le_antisym : (a b : A) → le a b ≡ true → le b a ≡ true → a ≡ b

module _ {ℓ} {A : Type ℓ} ⦃o : Ord A⦄ where
  unfoldable pub insert_sorted : A → List A → List A
  insert_sorted x [] = x ∷ []
  insert_sorted x (y ∷ ys) = if o.le x y then x ∷ y ∷ ys else y ∷ insert_sorted x ys

  -- `sort.Strings` and `sort.Ints`: the order is total and antisymmetric, so every sorting
  -- algorithm returns this list.
  unfoldable pub sort : List A → List A
  unfolding insert_sorted
  sort [] = []
  sort (x ∷ xs) = insert_sorted x (sort xs)

  abbrev pub IsSorted : List A → Type 0
  IsSorted [] = Unit
  IsSorted (x ∷ xs) = All (λ y. o.le x y ≡ true) xs × IsSorted xs

  All-le_trans :
      (x y : A) (ys : List A)
      → o.le x y ≡ true
      → All (λ z. o.le y z ≡ true) ys
      → All (λ z. o.le x z ≡ true) ys
  All-le_trans x y [] h _ = tt
  All-le_trans x y (z ∷ zs) h (hz, hs) = (o.le_trans x y z h hz, All-le_trans x y zs h hs)

module _ {ℓ} {A : Type ℓ} ⦃o : Ord A⦄ where
  All-insert_sorted :
      (P : A → Type 0) (x : A) (ys : List A) → P x → All P ys → All P (insert_sorted x ys)
  unfolding insert_sorted
  All-insert_sorted P x [] h _ = (h, tt)
  All-insert_sorted P x (y ∷ ys) h (hy, hs) = elim (Bool-cases (o.le x y)) [
    | inl e ↦ rw e (h, (hy, hs))
    | inr e ↦ rw e (hy, All-insert_sorted P x ys h hs)
  ]

  insert_sorted-IsSorted : (x : A) (ys : List A) → IsSorted ys → IsSorted (insert_sorted x ys)
  unfolding insert_sorted
  insert_sorted-IsSorted x [] _ = (tt, tt)
  insert_sorted-IsSorted x (y ∷ ys) (hy, hs) = elim (Bool-cases (o.le x y)) [
    | inl e ↦ rw e ((e, All-le_trans x y ys e hy), (hy, hs))
    | inr e ↦ rw e (
      All-insert_sorted (λ z. o.le y z ≡ true) x ys (o.le_total x y e) hy,
      insert_sorted-IsSorted x ys hs,
    )
  ]

  pub sort-IsSorted : (xs : List A) → IsSorted (sort xs)
  unfolding sort
  sort-IsSorted [] = tt
  sort-IsSorted (x ∷ xs) = insert_sorted-IsSorted x (sort xs) (sort-IsSorted xs)

  sort_of_sorted_step :
      (x : A) (xs : List A) → All (λ y. o.le x y ≡ true) xs → insert_sorted x xs ≡ x ∷ xs
  unfolding insert_sorted
  sort_of_sorted_step x [] _ = refl
  sort_of_sorted_step x (y ∷ ys) (h, _) = rw h

  pub sort_of_sorted : (xs : List A) → IsSorted xs → sort xs ≡ xs
  unfolding sort
  sort_of_sorted [] _ = refl
  sort_of_sorted (x ∷ xs) (hx, hs) = rw (sort_of_sorted xs hs) (sort_of_sorted_step x xs hx)

module _ {ℓ} {A : Type ℓ} ⦃e : Eq A⦄ where
  -- No item stands twice.
  abbrev pub IsUnique : List A → Type 0
  IsUnique [] = Unit
  IsUnique (x ∷ xs) = (contains xs x ≡ false) × IsUnique xs

module _ {ℓ} {A : Type ℓ} ⦃e : Eq A⦄ ⦃o : Ord A⦄ where
  contains-insert_sorted :
      (x : A) (ys : List A) (v : A) → contains (insert_sorted x ys) v ≡ (x == v || contains ys v)
  unfolding insert_sorted contains
  contains-insert_sorted x [] v = refl
  contains-insert_sorted x (y ∷ ys) v = ground (arith, contains-insert_sorted x ys v)

  pub contains-sort : (xs : List A) (v : A) → contains (sort xs) v ≡ contains xs v
  unfolding sort contains
  contains-sort [] v = refl
  contains-sort (x ∷ xs) v =
      ground (arith, contains-insert_sorted x (sort xs) v, contains-sort xs v)

  insert_sorted-IsUnique :
      (x : A) (ys : List A) → contains ys x ≡ false → IsUnique ys → IsUnique (insert_sorted x ys)
  unfolding insert_sorted contains
  insert_sorted-IsUnique x [] h _ = (refl, tt)
  insert_sorted-IsUnique x (y ∷ ys) h (hy, hs) = ground (
    arith,
    contains-insert_sorted x ys y,
    insert_sorted-IsUnique x ys,
    e.same_iff x y,
    e.same_iff y x,
  )

  pub sort-IsUnique : (xs : List A) → IsUnique xs → IsUnique (sort xs)
  unfolding sort
  sort-IsUnique [] _ = tt
  sort-IsUnique (x ∷ xs) (hx, hs) =
      insert_sorted-IsUnique x (sort xs) (contains-sort xs x ∙ hx) (sort-IsUnique xs hs)

  le_of_contains :
      (x : A) (xs : List A) (v : A)
      → All (λ y. o.le x y ≡ true) xs
      → contains xs v ≡ true
      → o.le x v ≡ true
  unfolding contains
  le_of_contains x [] v _ h = cc
  le_of_contains x (y ∷ ys) v (hy, hs) h = ground (arith, e.same_iff y v, le_of_contains x ys v hs)

  same_heads :
      (x y : A) (xs ys : List A)
      → IsSorted (x ∷ xs)
      → IsSorted (y ∷ ys)
      → ((v : A) → contains (x ∷ xs) v ≡ contains (y ∷ ys) v)
      → x ≡ y
  unfolding contains
  same_heads x y xs ys (hx, _) (hy, _) same = ground (
    arith,
    same x,
    same y,
    ==-refl x,
    ==-refl y,
    e.same_iff x y,
    e.same_iff y x,
    le_of_contains x xs y hx,
    le_of_contains y ys x hy,
    o.le_antisym x y,
  )

  same_tails :
      (x : A) (xs ys : List A)
      → contains xs x ≡ false
      → contains ys x ≡ false
      → ((v : A) → contains (x ∷ xs) v ≡ contains (x ∷ ys) v)
      → (v : A) → contains xs v ≡ contains ys v
  unfolding contains
  same_tails x xs ys hx hy same v = ground (arith, same v, e.same_iff x v)

  not_same_nil : (y : A) (ys : List A) → ((v : A) → contains [] v ≡ contains (y ∷ ys) v) → ⊥
  unfolding contains
  not_same_nil y ys same = ground (arith, same y, ==-refl y)

  -- A sorted list with no repetition is determined by its members.
  pub eq_of_same_members :
      (xs ys : List A)
      → IsSorted xs
      → IsUnique xs
      → IsSorted ys
      → IsUnique ys
      → ((v : A) → contains xs v ≡ contains ys v)
      → xs ≡ ys
  eq_of_same_members [] [] _ _ _ _ same = refl
  eq_of_same_members [] (y ∷ ys) _ _ _ _ same = absurd (not_same_nil y ys same)
  eq_of_same_members (x ∷ xs) [] _ _ _ _ same = absurd (not_same_nil x xs (λ v. sym (same v)))
  eq_of_same_members (x ∷ xs) (y ∷ ys) sx (ux, uxs) sy (uy, uys) same =
      let e : x ≡ y = same_heads x y xs ys sx sy same in
      let uy' : contains ys x ≡ false = rw e uy in
      let same' : (v : A) → contains (x ∷ xs) v ≡ contains (x ∷ ys) v = λ v. same v ∙ rw e refl in
      ap₂ (λ a b. a ∷ b) e
        (eq_of_same_members xs ys sx.1 uxs sy.1 uys (same_tails x xs ys ux uy' same'))
