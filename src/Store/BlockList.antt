-- ===== src/Store/BlockList.antt =====
-- `BlockList` of internal/store/store.go, and the helpers that add to it and remove from it.
mod Canonical
mod Add
mod Remove
pub mod Laws
pub mod Fields
pub mod Tests
use request_blocker.Shared.{
  ℕ, zero, suc, ◌+◌, Bool, true, false, ◌||◌, ◌&&◌, not, List, [], ◌∷◌, ◌++◌, ◌==◌, nat_eq, list_eq,
  contains, sort, Ord, IsSorted, IsUnique, All, ◌≡◌, if◌then◌else◌,
}
use request_blocker.Text.{Text, text_ord}

pub record BlockList : Type 0 where
  pub domains : List Text
  pub ips : List Text

abbrev pub empty : BlockList
empty = record { domains = []; ips = [] }

abbrev pub is_empty : Text → Bool
is_empty [] = true
is_empty (_ ∷ _) = false

-- The loop of `sortedUnique`: what it appends to `out`, `seen` being the keys of its map.
distinct : List Text → List Text → List Text
distinct [] seen = []
distinct (v ∷ vs) seen =
    let skip = distinct vs seen in
    let keep = v ∷ distinct vs (v ∷ seen) in if is_empty v || contains seen v then skip else keep

unfoldable pub sorted_unique : List Text → List Text
unfolding distinct
sorted_unique xs = sort (distinct xs [])

-- The loop of `addUnique`: the list with the new items behind it, and their number.
append_new : List Text → List Text → List Text → ℕ → List Text × ℕ
append_new [] existing dst n = (dst, n)
append_new (v ∷ vs) existing dst n =
    let old = append_new vs existing dst n in
    let new = append_new vs (v ∷ existing) (dst ++ v ∷ []) (n + 1) in
    if contains existing v then old else new

unfoldable pub add_unique : List Text → List Text → List Text × ℕ
unfolding append_new sorted_unique
add_unique dst add = let (all, n) = append_new add dst dst 0 in (sorted_unique all, n)

-- The loop of `removeAll`: the items that stay, and the number of the others.
keep_others : List Text → List Text → List Text → ℕ → List Text × ℕ
keep_others [] remove out n = (out, n)
keep_others (v ∷ vs) remove out n =
    let gone = keep_others vs remove out (n + 1) in
    let kept = keep_others vs remove (out ++ v ∷ []) n in if contains remove v then gone else kept

unfoldable pub remove_all : List Text → List Text → List Text × ℕ
unfolding keep_others sorted_unique
remove_all dst remove = let (out, n) = keep_others dst remove [] 0 in (sorted_unique out, n)

-- `AddDomains` and `AddIPs`, `RemoveDomains` and `RemoveIPs`.
unfoldable pub add_domains : List Text → BlockList → BlockList × ℕ
add_domains domains b = let (ds, n) = add_unique b.domains domains in (record b { domains = ds }, n)

unfoldable pub add_ips : List Text → BlockList → BlockList × ℕ
add_ips ips b = let (is, n) = add_unique b.ips ips in (record b { ips = is }, n)

unfoldable pub remove_domains : List Text → BlockList → BlockList × ℕ
remove_domains domains b =
    let (ds, n) = remove_all b.domains domains in (record b { domains = ds }, n)

unfoldable pub remove_ips : List Text → BlockList → BlockList × ℕ
remove_ips ips b = let (is, n) = remove_all b.ips ips in (record b { ips = is }, n)

-- "Entries are kept sorted and de-duplicated", and none is empty.
pub record IsCanonical (xs : List Text) : Type 0 where
  pub sorted : IsSorted xs
  pub unique : IsUnique xs
  pub filled : contains xs [] ≡ false
