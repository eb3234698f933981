-- ===== src/Backend/State.antt =====
-- internal/backend/backend.go and diff.go: the desired state and the helpers that compare states.
pub mod Tests
use request_blocker.Shared.{
  ℕ, Bool, true, false, ◌||◌, ◌&&◌, not, Option, none, some, List, [], ◌∷◌, ◌≡◌, ◌∙◌, refl, arith,
  nat_eq, list_eq, ◌==◌, length, contains, Map, keys, lookup, is_some, sort, if◌then◌else◌,
  contains-sort, contains-keys, IsMap, same_members_of_length, list_beq_iff,
}
use request_blocker.Text.{Text, ℤ, int_eq, int_ord, int_beq_iff}

pub data Family : Type 0 where
  v4 v6 : Family

pub record IpSet : Type 0 where
  pub v4 : List Text
  pub v6 : List Text

abbrev pub no_addresses : IpSet
no_addresses = record { v4 = []; v6 = [] }

unfoldable pub is_empty : IpSet → Bool
is_empty s = length s.v4 == 0 && length s.v6 == 0

abbrev pub addresses : Family → IpSet → List Text
addresses v4 s = s.v4
addresses v6 s = s.v6

pub record State : Type 0 where
  pub global : IpSet
  pub per_user : Map ℤ IpSet

-- `m[uid]`: the zero value where the uid is missing.
abbrev pub or_none : Option IpSet → IpSet
or_none none = no_addresses
or_none (some s) = s

unfoldable pub user_set : ℤ → Map ℤ IpSet → IpSet
user_set uid m = or_none (lookup uid m)

abbrev pub has_user : ℤ → Map ℤ IpSet → Bool
has_user uid m = is_some (lookup uid m)

unfoldable pub sorted_uids : Map ℤ IpSet → List ℤ
sorted_uids m = sort (keys m)

pub contains-sorted_uids :
    (m : Map ℤ IpSet) (uid : ℤ) → contains (sorted_uids m) uid ≡ has_user uid m
unfolding sorted_uids
contains-sorted_uids m uid = contains-sort (keys m) uid ∙ contains-keys m uid

all_in : List ℤ → Map ℤ IpSet → Bool
all_in [] b = true
all_in (uid ∷ uids) b = has_user uid b && all_in uids b

pub same_uids : Map ℤ IpSet → Map ℤ IpSet → Bool
unfolding all_in
same_uids a b = if length a == length b then all_in (keys a) b else false

absent : List Text → List Text → List Text
absent [] old = []
absent (v ∷ vs) old = let rest = absent vs old in if contains old v then rest else v ∷ rest

-- `diffStrings`: the items of `next` that `prev` lacks, and those of `prev` that `next` lacks.
unfoldable pub diff_strings : List Text → List Text → List Text × List Text
unfolding absent
diff_strings prev next = (absent next prev, absent prev next)

contains-absent :
    (xs old : List Text) (v : Text)
    → contains (absent xs old) v ≡ (contains xs v && not (contains old v))
unfolding absent contains
contains-absent [] old v = refl
contains-absent (x ∷ xs) old v = ground (arith, contains-absent xs old v, list_beq_iff x v)

pub contains-added :
    (prev next : List Text) (v : Text)
    → contains (diff_strings prev next).0 v ≡ (contains next v && not (contains prev v))
unfolding diff_strings
contains-added prev next v = contains-absent next prev v

pub contains-removed :
    (prev next : List Text) (v : Text)
    → contains (diff_strings prev next).1 v ≡ (contains prev v && not (contains next v))
unfolding diff_strings
contains-removed prev next v = contains-absent prev next v

-- What the desired state says of traffic of a uid to an address.
abbrev pub blocked : State → ℤ → Family → Text → Bool
blocked s uid f x =
    contains (addresses f s.global) x || contains (addresses f (user_set uid s.per_user)) x

has_user-all_in :
    (uids : List ℤ) (b : Map ℤ IpSet) (u : ℤ)
    → all_in uids b ≡ true
    → contains uids u ≡ true
    → has_user u b ≡ true
unfolding all_in contains
has_user-all_in [] b u h k = ground arith
has_user-all_in (uid ∷ uids) b u h k = ground (arith, has_user-all_in uids b u, int_beq_iff uid u)

length-keys : (m : Map ℤ IpSet) → length (keys m) ≡ length m
length-keys [] = refl
length-keys ((k, v) ∷ m) = omega (arith, length-keys m)

-- Where `sameUIDs` says yes of two maps, they have the same uids.
pub same_uids-has_user :
    (a b : Map ℤ IpSet)
    → IsMap a
    → IsMap b
    → same_uids a b ≡ true
    → (u : ℤ) → has_user u a ≡ has_user u b
unfolding same_uids
same_uids-has_user a b ua ub h u = ground (
  arith,
  contains-keys a u,
  contains-keys b u,
  same_members_of_length (keys a) (keys b) ua ub (ground (arith, length-keys a, length-keys b))
      (λ v k. ground (arith, contains-keys b v, has_user-all_in (keys a) b v)) u,
)
