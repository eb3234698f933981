-- ===== src/Store/BlockList/Add.antt =====
-- `addUnique`: the items of the result, and the count.
use request_blocker.Shared.{
  ℕ, ◌+◌, ◌≤◌, true, false, ◌||◌, ◌&&◌, not, List, [], ◌∷◌, ◌++◌, nat_eq, list_eq, contains,
  contains-append, contains-cons, IsUnique, ◌≡◌, ◌∙◌, refl, arith, length, length-append,
  list_beq_iff, append_assoc, append-nil, if◌then◌else◌, ==-refl,
}
use request_blocker.Text.{Text, text_ord}
use request_blocker.Store.BlockList.{is_empty, append_new, add_unique, IsCanonical}
use request_blocker.Store.BlockList.Canonical.{
  contains-sorted_unique, sorted_unique-IsCanonical, length-sorted_unique,
}

-- The requested items that are new, each once.
fresh : List Text → List Text → List Text
fresh [] existing = []
fresh (v ∷ vs) existing =
    let old = fresh vs existing in
    let new = v ∷ fresh vs (v ∷ existing) in if contains existing v then old else new

append_new-fresh :
    (add existing dst : List Text) (n : ℕ)
    → append_new add existing dst n ≡ (dst ++ fresh add existing, n + length (fresh add existing))
unfolding append_new fresh
append_new-fresh [] existing dst n = rw append-nil (ground arith)
append_new-fresh (v ∷ vs) existing dst n = ground (
  arith,
  append_new-fresh vs existing dst n,
  append_new-fresh vs (v ∷ existing) (dst ++ v ∷ []) (n + 1),
  append_assoc dst (v ∷ []) (fresh vs (v ∷ existing)),
)

contains-fresh :
    (add existing : List Text) (v : Text)
    → contains (fresh add existing) v ≡ (contains add v && not (contains existing v))
unfolding fresh contains
contains-fresh [] existing v = refl
contains-fresh (x ∷ xs) existing v =
    ground
      (arith, contains-fresh xs existing v, contains-fresh xs (x ∷ existing) v, list_beq_iff x v)

fresh-IsUnique : (add existing : List Text) → IsUnique (fresh add existing)
unfolding fresh contains
fresh-IsUnique [] existing = tt
fresh-IsUnique (x ∷ xs) existing = ground (
  arith,
  fresh-IsUnique xs existing,
  fresh-IsUnique xs (x ∷ existing),
  contains-fresh xs (x ∷ existing) x,
  ==-refl x,
)

IsUnique-append :
    (xs ys : List Text)
    → IsUnique xs
    → IsUnique ys
    → ((v : Text) → contains xs v ≡ true → contains ys v ≡ false)
    → IsUnique (xs ++ ys)
IsUnique-append [] ys _ hy apart = hy
IsUnique-append (x ∷ xs) ys (hx, hs) hy apart = (
  contains-append xs ys x ∙ ground (arith, apart x, hx, contains-cons x xs x, ==-refl x),
  IsUnique-append xs ys hs hy λ v h. apart v (contains-cons x xs v ∙ ground arith),
)

-- The result holds what the list held and what was asked for, save the empty text.
pub contains-add_unique :
    (dst add : List Text) (v : Text)
    → contains (add_unique dst add).0 v ≡ ((contains dst v || contains add v) && not (is_empty v))
unfolding add_unique
contains-add_unique dst add v = rw (append_new-fresh add dst dst 0) (
    contains-sorted_unique (dst ++ fresh add dst) v
    ∙ ground (arith, contains-append dst (fresh add dst) v, contains-fresh add dst v))

pub add_unique-IsCanonical : (dst add : List Text) → IsCanonical (add_unique dst add).0
unfolding add_unique
add_unique-IsCanonical dst add = sorted_unique-IsCanonical (append_new add dst dst 0).0

pub length-add_unique :
    (dst add : List Text)
    → IsCanonical dst
    → contains add [] ≡ false
    → length (add_unique dst add).0 ≡ length dst + (add_unique dst add).1
unfolding add_unique
length-add_unique dst add c h = rw (append_new-fresh add dst dst 0) (
    length-sorted_unique (dst ++ fresh add dst)
      (IsUnique-append dst (fresh add dst) c.unique (fresh-IsUnique add dst)
        λ v k. ground (arith, contains-fresh add dst v))
      (ground (arith, c.filled, contains-append dst (fresh add dst) [], contains-fresh add dst []))
    ∙ omega (arith, length-append dst (fresh add dst)))

length-fresh : (add existing : List Text) → length (fresh add existing) ≤ length add
unfolding fresh
length-fresh [] existing = omega arith
length-fresh (v ∷ vs) existing =
    ground (arith, length-fresh vs existing, length-fresh vs (v ∷ existing))

pub count-add_unique : (dst add : List Text) → (add_unique dst add).1 ≤ length add
unfolding add_unique
count-add_unique dst add = rw (append_new-fresh add dst dst 0) (omega (arith, length-fresh add dst))
