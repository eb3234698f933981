-- ===== src/Store/BlockList/Laws.antt =====
-- What the helpers of a blocklist promise: exact contents, canonical form and exact counts.
use request_blocker.Shared.{
  ◌+◌, true, false, ◌||◌, ◌&&◌, not, List, [], ◌≡◌, ◌∙◌, arith, contains, length, list_eq, nat_eq,
}
use request_blocker.Text.{Text}
use request_blocker.Store.BlockList.{add_unique, remove_all, IsCanonical}
use request_blocker.Store.BlockList.Canonical.{IsCanonical-eq, contains-empty}
use request_blocker.Store.BlockList.Add.{
  contains-add_unique, add_unique-IsCanonical, length-add_unique,
}
use request_blocker.Store.BlockList.Remove.{
  contains-remove_all, remove_all-IsCanonical, length-remove_all,
}

-- Adding to a canonical list items none of which is empty gives a canonical list that holds
-- exactly the old and the requested items, and the count is by how much the list grew.
pub add_unique_lem :
    (dst add : List Text)
    → IsCanonical dst
    → contains add [] ≡ false
    → IsCanonical (add_unique dst add).0
      × ((v : Text) → contains (add_unique dst add).0 v ≡ (contains dst v || contains add v))
      × (length (add_unique dst add).0 ≡ length dst + (add_unique dst add).1)
add_unique_lem dst add c filled = (
  add_unique-IsCanonical dst add,
  (λ v.
      contains-add_unique dst add v
      ∙ ground (arith, contains-empty dst v c.filled, contains-empty add v filled)),
  length-add_unique dst add c filled,
)

-- Removing from a canonical list gives a canonical list that holds exactly the items that were
-- not named, and the count is the number of items that went.
pub remove_all_lem :
    (dst remove : List Text)
    → IsCanonical dst
    → IsCanonical (remove_all dst remove).0
      × ((v : Text)
          → contains (remove_all dst remove).0 v ≡ (contains dst v && not (contains remove v)))
      × (length (remove_all dst remove).0 + (remove_all dst remove).1 ≡ length dst)
remove_all_lem dst remove c = (
  remove_all-IsCanonical dst remove,
  (λ v. contains-remove_all dst remove v ∙ ground (arith, contains-empty dst v c.filled)),
  length-remove_all dst remove c,
)

-- Two requests to add leave the same list in either order.
pub add_unique_comm :
    (dst a b : List Text)
    → (add_unique (add_unique dst a).0 b).0 ≡ (add_unique (add_unique dst b).0 a).0
add_unique_comm dst a b =
    IsCanonical-eq _ _ (add_unique-IsCanonical (add_unique dst a).0 b)
      (add_unique-IsCanonical (add_unique dst b).0 a)
      λ v. ground (
        arith,
        contains-add_unique (add_unique dst a).0 b v,
        contains-add_unique dst a v,
        contains-add_unique (add_unique dst b).0 a v,
        contains-add_unique dst b v,
      )

-- Removing what was just added restores a canonical list that held none of it.
pub remove_all-add_unique :
    (dst items : List Text)
    → IsCanonical dst
    → ((v : Text) → contains dst v ≡ true → contains items v ≡ false)
    → (remove_all (add_unique dst items).0 items).0 ≡ dst
remove_all-add_unique dst items c apart =
    IsCanonical-eq _ _ (remove_all-IsCanonical (add_unique dst items).0 items) c λ v. ground (
      arith,
      contains-remove_all (add_unique dst items).0 items v,
      contains-add_unique dst items v,
      apart v,
      contains-empty dst v c.filled,
    )
