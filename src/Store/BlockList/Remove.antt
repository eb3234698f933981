-- ===== src/Store/BlockList/Remove.antt =====
-- `removeAll`: the items of the result, and the count.
use request_blocker.Shared.{
  ℕ, ◌+◌, ◌&&◌, not, List, [], ◌∷◌, ◌++◌, nat_eq, list_eq, contains, IsUnique, ◌≡◌, ◌∙◌, refl,
  arith, length, list_beq_iff, append_assoc, append-nil, if◌then◌else◌,
}
use request_blocker.Text.{Text, text_ord}
use request_blocker.Store.BlockList.{is_empty, sorted_unique, keep_others, remove_all, IsCanonical}
use request_blocker.Store.BlockList.Canonical.{
  contains-sorted_unique, sorted_unique-IsCanonical, length-sorted_unique,
}

others : List Text → List Text → List Text
others [] remove = []
others (v ∷ vs) remove = let rest = others vs remove in if contains remove v then rest else v ∷ rest

keep_others-others :
    (xs remove out : List Text) (n : ℕ) → (keep_others xs remove out n).0 ≡ out ++ others xs remove
unfolding keep_others others
keep_others-others [] remove out n = rw append-nil
keep_others-others (v ∷ vs) remove out n = ground (
  arith,
  keep_others-others vs remove out (n + 1),
  keep_others-others vs remove (out ++ v ∷ []) n,
  append_assoc out (v ∷ []) (others vs remove),
)

count-keep_others :
    (xs remove out : List Text) (n : ℕ)
    → (keep_others xs remove out n).1 + length (others xs remove) ≡ n + length xs
unfolding keep_others others
count-keep_others [] remove out n = omega arith
count-keep_others (v ∷ vs) remove out n =
    ground (
      arith,
      count-keep_others vs remove out (n + 1),
      count-keep_others vs remove (out ++ v ∷ []) n,
    )

contains-others :
    (xs remove : List Text) (v : Text)
    → contains (others xs remove) v ≡ (contains xs v && not (contains remove v))
unfolding others contains
contains-others [] remove v = refl
contains-others (x ∷ xs) remove v = ground (arith, contains-others xs remove v, list_beq_iff x v)

others-IsUnique : (xs remove : List Text) → IsUnique xs → IsUnique (others xs remove)
unfolding others
others-IsUnique [] remove _ = tt
others-IsUnique (x ∷ xs) remove (hx, hs) =
    ground (arith, others-IsUnique xs remove hs, contains-others xs remove x)

-- The result holds what the list held and nobody asked to remove, save the empty text.
pub contains-remove_all :
    (dst remove : List Text) (v : Text)
    → contains (remove_all dst remove).0 v
      ≡ (contains dst v && (not (contains remove v) && not (is_empty v)))
unfolding remove_all
contains-remove_all dst remove v =
    rw (keep_others-others dst remove [] 0)
      (contains-sorted_unique (others dst remove) v ∙ ground (arith, contains-others dst remove v))

pub remove_all-IsCanonical : (dst remove : List Text) → IsCanonical (remove_all dst remove).0
unfolding remove_all
remove_all-IsCanonical dst remove = sorted_unique-IsCanonical (keep_others dst remove [] 0).0

pub length-remove_all :
    (dst remove : List Text)
    → IsCanonical dst
    → length (remove_all dst remove).0 + (remove_all dst remove).1 ≡ length dst
unfolding remove_all
length-remove_all dst remove c =
    let kept : length (sorted_unique (others dst remove)) ≡ length (others dst remove) =
      length-sorted_unique (others dst remove) (others-IsUnique dst remove c.unique)
        (ground (arith, c.filled, contains-others dst remove [])) in
    rw (keep_others-others dst remove [] 0) (omega (arith, kept, count-keep_others dst remove [] 0))
