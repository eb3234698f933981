-- ===== src/Backend/State/Tests.antt =====
-- Tests of the comparison of states.
use request_blocker.Shared.{◌≡◌, refl, true, [], ◌∷◌, list_eq, nat_eq, Map, IsMap, contains, lookup}
use request_blocker.Text.{codes, ℤ, pos, int_eq, int_beq}
use request_blocker.Backend.State.{IpSet, no_addresses, same_uids}

abbrev one_two : Map ℤ IpSet
one_two = (pos 1, no_addresses) ∷ (pos 2, no_addresses) ∷ []

abbrev two_one : Map ℤ IpSet
two_one = (pos 2, record { v4 = codes "1.2.3.4" ∷ []; v6 = [] }) ∷ (pos 1, no_addresses) ∷ []

one_two-IsMap : IsMap one_two
unfolding contains int_beq
one_two-IsMap = (refl, (refl, tt))

two_one-IsMap : IsMap two_one
unfolding contains int_beq
two_one-IsMap = (refl, (refl, tt))

same : same_uids one_two two_one ≡ true
unfolding same_uids lookup int_beq
same = refl
