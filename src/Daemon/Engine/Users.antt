-- ===== src/Daemon/Engine/Users.antt =====
-- The loop of `buildAndApplyLocked` over the users.
use request_blocker.Shared.{
  true, false, Option, none, some, List, [], ◌∷◌, ◌≡◌, ◌∙◌, refl, sym, ap, arith, list_eq, nat_eq,
  length, contains, contains-nil, Map, IsMap, contains-keys, lookup, lookup-insert, insert,
  insert-IsMap, if◌then◌else◌, Bool-cases, inl, inr,
}
use request_blocker.Text.{Text, ℤ, int_eq, int_beq_iff}
use request_blocker.Store.BlockList.{BlockList}
use request_blocker.Backend.State.{
  Family, v4, v6, IpSet, addresses, user_set, no_addresses, is_empty, or_none,
}
use request_blocker.Daemon.Engine.Tables.{Cache, World, ip_set_for, user_sets}
use request_blocker.Daemon.Engine.Loaded.{or_empty}
use request_blocker.Daemon.Engine.Desired.{blocks, contains-ip_set_for}

pub user_sets-IsMap :
    (w : World) (cache : Cache) (lists : Map ℤ BlockList) (m : Map ℤ IpSet)
    → IsMap m
    → IsMap (user_sets w cache lists m)
unfolding user_sets
user_sets-IsMap w cache [] m h = h
user_sets-IsMap w cache ((uid, bl) ∷ lists) m h =
    elim (Bool-cases (is_empty (ip_set_for w cache bl))) [
      | inl empty ↦ rw empty (user_sets-IsMap w cache lists m h)
      | inr filled ↦ rw filled (
          user_sets-IsMap w cache lists (insert uid (ip_set_for w cache bl) m)
            (insert-IsMap uid (ip_set_for w cache bl) m h))
    ]

-- What the loop leaves for a uid: the set of its list, unless that is empty.
abbrev set_or : World → Cache → Option BlockList → Option IpSet → Option IpSet
set_or w cache none old = old
set_or w cache (some bl) old =
    if is_empty (ip_set_for w cache bl) then old else some (ip_set_for w cache bl)

lookup-user_sets :
    (w : World) (cache : Cache) (lists : Map ℤ BlockList) (m : Map ℤ IpSet) (u : ℤ)
    → IsMap lists
    → lookup u (user_sets w cache lists m) ≡ set_or w cache (lookup u lists) (lookup u m)
unfolding user_sets lookup
lookup-user_sets w cache [] m u _ = refl
lookup-user_sets w cache ((uid, bl) ∷ lists) m u (fresh, h) =
    let set = ip_set_for w cache bl in
    elim (Bool-cases (is_empty set)) [
      | inl empty ↦ rw empty (
          lookup-user_sets w cache lists m u h
          ∙ ground (arith, int_beq_iff uid u, contains-keys lists u, empty, fresh))
      | inr filled ↦ rw filled (
          lookup-user_sets w cache lists (insert uid set m) u h
          ∙ ground (
            arith,
            int_beq_iff uid u,
            contains-keys lists u,
            filled,
            fresh,
            lookup-insert u uid set m,
          ))
    ]

contains-no_length : (xs : List Text) (x : Text) → length xs ≡ 0 → contains xs x ≡ false
contains-no_length [] x h = contains-nil x
contains-no_length (y ∷ ys) x h = absurd (omega arith)

empty-contains :
    (s : IpSet) (f : Family) (x : Text) → is_empty s ≡ true → contains (addresses f s) x ≡ false
unfolding is_empty
empty-contains s v4 x h = contains-no_length s.v4 x (ground arith)
empty-contains s v6 x h = contains-no_length s.v6 x (ground arith)

or_none-blocks :
    (w : World) (cache : Cache) (o : Option BlockList) (f : Family) (x : Text)
    → contains (addresses f (or_none (set_or w cache o none))) x ≡ blocks cache (or_empty o) f x
or_none-blocks w cache none v4 x = contains-nil x
or_none-blocks w cache none v6 x = contains-nil x
or_none-blocks w cache (some bl) f x = elim (Bool-cases (is_empty (ip_set_for w cache bl))) [
  | inl empty ↦ rw empty (
      none_there f
      ∙ sym (empty-contains (ip_set_for w cache bl) f x empty)
      ∙ contains-ip_set_for w cache bl f x)
  | inr filled ↦ rw filled (contains-ip_set_for w cache bl f x)
]
  where
    none_there : (g : Family) → contains (addresses g no_addresses) x ≡ false
    none_there v4 = contains-nil x
    none_there v6 = contains-nil x

-- The set of a uid in the desired state holds exactly what its list blocks.
pub user_set-desired :
    (w : World) (cache : Cache) (lists : Map ℤ BlockList) (u : ℤ) (f : Family) (x : Text)
    → IsMap lists
    → contains (addresses f (user_set u (user_sets w cache lists []))) x
      ≡ blocks cache (or_empty (lookup u lists)) f x
unfolding user_set
user_set-desired w cache lists u f x h =
    ap (λ o. contains (addresses f (or_none o)) x)
      (lookup-user_sets w cache lists [] u h ∙ ap (set_or w cache (lookup u lists)) (lookup_nil u))
    ∙ or_none-blocks w cache (lookup u lists) f x
  where
    lookup_nil : (k : ℤ) → lookup {V = IpSet} k [] ≡ none
    lookup_nil k = unfold lookup in refl
