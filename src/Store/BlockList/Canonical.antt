-- ===== src/Store/BlockList/Canonical.antt =====
-- `sortedUnique`: what its result holds, and that it is in canonical form.
use request_blocker.Shared.{
  suc, true, false, ◌&&◌, not, List, [], ◌∷◌, ◌==◌, nat_eq, list_eq, contains, contains-nil,
  insert_sorted, sort, sort-IsSorted, sort-IsUnique, contains-sort, IsUnique, ◌≡◌, ◌∙◌, refl, arith,
  length, list_beq_iff, eq_of_same_members, ==-refl,
}
use request_blocker.Text.{Text, text_ord}
use request_blocker.Store.BlockList.{is_empty, distinct, sorted_unique, IsCanonical}

is_empty_test : (v w : Text) → (v == w) ≡ true → is_empty v ≡ is_empty w
is_empty_test v w h = rw ((list_beq_iff v w).0 h)

contains-distinct :
    (xs seen : List Text) (v : Text)
    → contains (distinct xs seen) v ≡ (contains xs v && (not (is_empty v) && not (contains seen v)))
unfolding distinct contains
contains-distinct [] seen v = refl
contains-distinct (x ∷ xs) seen v =
    ground (arith, contains-distinct xs seen v, contains-distinct xs (x ∷ seen) v, list_beq_iff x v)

distinct-IsUnique : (xs seen : List Text) → IsUnique (distinct xs seen)
unfolding distinct contains
distinct-IsUnique [] seen = tt
distinct-IsUnique (x ∷ xs) seen = ground (
  arith,
  distinct-IsUnique xs seen,
  distinct-IsUnique xs (x ∷ seen),
  contains-distinct xs (x ∷ seen) x,
  ==-refl x,
)

pub contains-sorted_unique :
    (xs : List Text) (v : Text)
    → contains (sorted_unique xs) v ≡ (contains xs v && not (is_empty v))
unfolding sorted_unique
contains-sorted_unique xs v =
    contains-sort (distinct xs []) v
    ∙ contains-distinct xs [] v
    ∙ rw (contains-nil v) (ground arith)

pub sorted_unique-IsCanonical : (xs : List Text) → IsCanonical (sorted_unique xs)
sorted_unique-IsCanonical xs = record {
  sorted = unfold sorted_unique in sort-IsSorted (distinct xs []);
  unique = unfold sorted_unique in sort-IsUnique (distinct xs []) (distinct-IsUnique xs []);
  filled = contains-sorted_unique xs [] ∙ ground arith;
}

-- Two canonical lists with the same members are one list.
pub IsCanonical-eq :
    (xs ys : List Text)
    → IsCanonical xs
    → IsCanonical ys
    → ((v : Text) → contains xs v ≡ contains ys v)
    → xs ≡ ys
IsCanonical-eq xs ys cx cy same =
    eq_of_same_members xs ys cx.sorted cx.unique cy.sorted cy.unique same

pub contains-empty :
    (xs : List Text) (v : Text) → contains xs [] ≡ false → contains xs v ≡ true → is_empty v ≡ false
contains-empty xs [] h k = ground arith
contains-empty xs (c ∷ v) h k = refl

pub sorted_unique_of_canonical : (xs : List Text) → IsCanonical xs → sorted_unique xs ≡ xs
sorted_unique_of_canonical xs c =
    IsCanonical-eq _ xs (sorted_unique-IsCanonical xs) c
      λ v. contains-sorted_unique xs v ∙ ground (arith, contains-empty xs v c.filled)

length-insert_sorted : (x : Text) (ys : List Text) → length (insert_sorted x ys) ≡ suc (length ys)
unfolding insert_sorted
length-insert_sorted x [] = refl
length-insert_sorted x (y ∷ ys) = ground (arith, length-insert_sorted x ys)

length-sort : (xs : List Text) → length (sort xs) ≡ length xs
unfolding sort
length-sort [] = refl
length-sort (x ∷ xs) = omega (arith, length-insert_sorted x (sort xs), length-sort xs)

length-distinct :
    (xs seen : List Text)
    → IsUnique xs
    → contains xs [] ≡ false
    → ((v : Text) → contains xs v ≡ true → contains seen v ≡ false)
    → length (distinct xs seen) ≡ length xs
unfolding distinct contains
length-distinct [] seen _ _ _ = refl
length-distinct (x ∷ xs) seen (hx, hs) filled apart =
    let ih =
      length-distinct xs (x ∷ seen) hs (ground arith)
        λ v h. ground (arith, list_beq_iff x v, apart v) in
    ground (arith, ih, apart x, ==-refl x, contains-empty (x ∷ xs) x filled)

pub length-sorted_unique :
    (xs : List Text) → IsUnique xs → contains xs [] ≡ false → length (sorted_unique xs) ≡ length xs
unfolding sorted_unique
length-sorted_unique xs u filled =
    length-sort (distinct xs []) ∙ length-distinct xs [] u filled (λ v _. contains-nil v)
