-- ===== src/Shared/Counting.antt =====
-- Lists with no repetition: a sublist that is as long has the same members.
use Prim.Native.Nat.{suc}
use mathlib.Core.Path.{◌≡◌, refl, ◌∙◌}
use mathlib.Core.Bool.{true, ◌&&◌, not}
use mathlib.Core.List.{List, [], ◌∷◌}
use native.Mathlib.Omega.{arith}
use request_blocker.Shared.Tests.{if◌then◌else◌}
use request_blocker.Shared.Equality.{Eq, ◌==◌, ==-refl}
use request_blocker.Shared.Lists.{contains, contains-cons, length}
use request_blocker.Shared.Order.{IsUnique}

module _ {ℓ} {A : Type ℓ} ⦃e : Eq A⦄ where
  erase : A → List A → List A
  erase x [] = []
  erase x (y ∷ ys) = let rest = erase x ys in if y == x then ys else y ∷ rest

  contains-erase :
      (x : A) (ys : List A) (v : A)
      → IsUnique ys
      → contains (erase x ys) v ≡ (contains ys v && not (x == v))
  unfolding erase contains
  contains-erase x [] v _ = refl
  contains-erase x (y ∷ ys) v (h, hs) =
      ground (arith, contains-erase x ys v hs, e.same_iff y x, e.same_iff y v, e.same_iff x v)

  erase-IsUnique : (x : A) (ys : List A) → IsUnique ys → IsUnique (erase x ys)
  unfolding erase
  erase-IsUnique x [] _ = tt
  erase-IsUnique x (y ∷ ys) (h, hs) =
      ground (arith, erase-IsUnique x ys hs, contains-erase x ys y hs)

  length-erase :
      (x : A) (ys : List A) → contains ys x ≡ true → length ys ≡ suc (length (erase x ys))
  unfolding erase contains
  length-erase x [] h = ground arith
  length-erase x (y ∷ ys) h = ground (arith, length-erase x ys)

  pub same_members_of_length :
      (xs ys : List A)
      → IsUnique xs
      → IsUnique ys
      → length xs ≡ length ys
      → ((v : A) → contains xs v ≡ true → contains ys v ≡ true)
      → (v : A) → contains xs v ≡ contains ys v
  same_members_of_length [] [] _ _ _ _ v = refl
  same_members_of_length [] (y ∷ ys) _ _ h _ v = absurd (omega arith)
  same_members_of_length (x ∷ xs) ys (ux, uxs) uy h sub v =
      let here = sub x (contains-cons x xs x ∙ ground (arith, ==-refl x)) in
      let ih =
        same_members_of_length xs (erase x ys) uxs (erase-IsUnique x ys uy)
          (omega (arith, length-erase x ys here))
          (λ w k.
            contains-erase x ys w uy ∙ ground (arith, sub w, contains-cons x xs w, e.same_iff x w))
          v in
      ground (arith, ih, contains-erase x ys v uy, contains-cons x xs v, e.same_iff x v, here)
