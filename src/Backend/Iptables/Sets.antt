-- ===== src/Backend/Iptables/Sets.antt =====
-- What the payloads do to the sets.
use request_blocker.Shared.{
  Bool, true, false, ◌||◌, ◌&&◌, not, List, [], ◌∷◌, ◌++◌, ◌≡◌, ◌∙◌, refl, arith, list_eq, nat_eq,
  bool_eq, contains, contains-nil, contains-cons, Map, if◌then◌else◌,
}
use request_blocker.Text.{Text, ℤ, int_eq, int_beq_iff}
use request_blocker.Backend.State.{
  v4, v6, IpSet, addresses, user_set, diff_strings, contains-added, contains-removed,
}
use request_blocker.Backend.Nft.Commands.{SetName, global_set, uid_set}
use request_blocker.Backend.Nft.Kernel.{family_eq, set_eq}
use request_blocker.Backend.Nft.Loops.{moved}
use request_blocker.Backend.Iptables.Commands.{
  Slot, live, twin, destroy, swap, adds, dels, write_set_elem_delta, user_set_deltas,
  write_set_refresh, user_refreshes,
}
use request_blocker.Backend.Iptables.Tool.{Members, slot_eq, effect, effects, effects-append}

set_eq_refl : (s : SetName) → set_eq s s ≡ true
unfolding set_eq family_eq
set_eq_refl (global_set v4) = refl
set_eq_refl (global_set v6) = refl
set_eq_refl (uid_set v4 u) = ground (arith, int_beq_iff u u)
set_eq_refl (uid_set v6 u) = ground (arith, int_beq_iff u u)

effects-adds :
    (s : Slot) (xs : List Text) (m : Members) (t : Slot) (x : Text)
    → effects (adds s xs) m t x ≡ ((slot_eq s t && contains xs x) || m t x)
unfolding adds effects effect
effects-adds s [] m t x = ground (arith, contains-nil x)
effects-adds s (y ∷ ys) m t x = effects-adds s ys _ t x ∙ ground (arith, contains-cons y ys x)

effects-dels :
    (s : Slot) (xs : List Text) (m : Members) (t : Slot) (x : Text)
    → effects (dels s xs) m t x ≡ (not (slot_eq s t && contains xs x) && m t x)
unfolding dels effects effect
effects-dels s [] m t x = ground (arith, contains-nil x)
effects-dels s (y ∷ ys) m t x = effects-dels s ys _ t x ∙ ground (arith, contains-cons y ys x)

pub effects-refresh :
    (s : SetName) (xs : List Text) (m : Members) (t : SetName) (x : Text)
    → effects (write_set_refresh s xs) m (live t) x
      ≡ (if set_eq s t then contains xs x else m (live t) x)
unfolding write_set_refresh effects effect
effects-refresh s xs m t x =
    let flushed : Members = λ u y. not (slot_eq (twin s) u) && m u y in
    rw (effects-append (adds (twin s) xs) (swap (live s) (twin s) ∷ destroy (twin s) ∷ []) flushed)
      (ground (
        arith,
        set_eq_refl s,
        effects-adds (twin s) xs flushed (twin s) x,
        effects-adds (twin s) xs flushed (live t) x,
      ))

pub effects-delta :
    (s : SetName) (p n : List Text) (m : Members) (t : SetName) (x : Text)
    → effects (write_set_elem_delta s p n) m (live t) x
      ≡ (if set_eq s t then moved (contains p x) (contains n x) (m (live t) x) else m (live t) x)
unfolding write_set_elem_delta
effects-delta s p n m t x =
    let (added, removed) = diff_strings p n in
    rw (effects-append (adds (live s) added) (dels (live s) removed) m) (
      effects-dels (live s) removed (effects (adds (live s) added) m) (live t) x
      ∙ ground (
        arith,
        effects-adds (live s) added m (live t) x,
        contains-added p n x,
        contains-removed p n x,
      ))

-- The sets of the uids of a loop, and what the state has for a set.
abbrev pub listed : List ℤ → SetName → Bool
listed uids (global_set f) = false
listed uids (uid_set f u) = contains uids u

abbrev pub wanted : Map ℤ IpSet → SetName → List Text
wanted um (global_set f) = []
wanted um (uid_set f u) = addresses f (user_set u um)

pub effects-user_refreshes :
    (uids : List ℤ) (um : Map ℤ IpSet) (m : Members) (t : SetName) (x : Text)
    → effects (user_refreshes uids um) m (live t) x
      ≡ (if listed uids t then contains (wanted um t) x else m (live t) x)
unfolding user_refreshes effects
effects-user_refreshes [] um m (global_set f) x = refl
effects-user_refreshes [] um m (uid_set f u) x = ground (arith, contains-nil u)
effects-user_refreshes (uid ∷ uids) um m t x =
    let a = write_set_refresh (uid_set v4 uid) (user_set uid um).v4 in
    let b = write_set_refresh (uid_set v6 uid) (user_set uid um).v6 in
    rw (effects-append a (b ++ user_refreshes uids um) m) (
      rw (effects-append b (user_refreshes uids um) (effects a m))
        (effects-user_refreshes uids um (effects b (effects a m)) t x ∙ step t))
  where
    a1 : Members
    a1 = effects (write_set_refresh (uid_set v4 uid) (user_set uid um).v4) m

    b1 : Members
    b1 = effects (write_set_refresh (uid_set v6 uid) (user_set uid um).v6) a1

    at_b :
        (s : SetName)
        → b1 (live s) x
          ≡ (if set_eq (uid_set v6 uid) s then contains (user_set uid um).v6 x else a1 (live s) x)
    at_b s = effects-refresh (uid_set v6 uid) (user_set uid um).v6 a1 s x

    at_a :
        (s : SetName)
        → a1 (live s) x
          ≡ (if set_eq (uid_set v4 uid) s then contains (user_set uid um).v4 x else m (live s) x)
    at_a s = effects-refresh (uid_set v4 uid) (user_set uid um).v4 m s x

    step :
        (s : SetName)
        → (if listed uids s then contains (wanted um s) x else b1 (live s) x)
          ≡ (if listed (uid ∷ uids) s then contains (wanted um s) x else m (live s) x)
    step (global_set f) = unfold set_eq in ground (arith, at_a (global_set f), at_b (global_set f))
    step (uid_set v4 u) =
        unfold set_eq family_eq in
        ground (
          arith,
          at_a (uid_set v4 u),
          at_b (uid_set v4 u),
          contains-cons uid uids u,
          int_beq_iff uid u,
        )
    step (uid_set v6 u) =
        unfold set_eq family_eq in
        ground (
          arith,
          at_a (uid_set v6 u),
          at_b (uid_set v6 u),
          contains-cons uid uids u,
          int_beq_iff uid u,
        )

pub effects-user_deltas :
    (uids : List ℤ) (pm nm : Map ℤ IpSet) (m : Members) (t : SetName) (x : Text)
    → effects (user_set_deltas uids pm nm) m (live t) x ≡ (
        if listed uids t
        then moved (contains (wanted pm t) x) (contains (wanted nm t) x) (m (live t) x)
        else m (live t) x)
unfolding user_set_deltas effects
effects-user_deltas [] pm nm m (global_set f) x = refl
effects-user_deltas [] pm nm m (uid_set f u) x = ground (arith, contains-nil u)
effects-user_deltas (uid ∷ uids) pm nm m t x =
    let a = write_set_elem_delta (uid_set v4 uid) (user_set uid pm).v4 (user_set uid nm).v4 in
    let b = write_set_elem_delta (uid_set v6 uid) (user_set uid pm).v6 (user_set uid nm).v6 in
    rw (effects-append a (b ++ user_set_deltas uids pm nm) m) (
      rw (effects-append b (user_set_deltas uids pm nm) (effects a m))
        (effects-user_deltas uids pm nm (effects b (effects a m)) t x ∙ step t))
  where
    a1 : Members
    a1 = effects (write_set_elem_delta (uid_set v4 uid) (user_set uid pm).v4 (user_set uid nm).v4) m

    b1 : Members
    b1 =
        effects (write_set_elem_delta (uid_set v6 uid) (user_set uid pm).v6 (user_set uid nm).v6) a1

    at_b :
        (s : SetName)
        → b1 (live s) x ≡ (
            if set_eq (uid_set v6 uid) s
            then moved
                (contains (user_set uid pm).v6 x)
                (contains (user_set uid nm).v6 x)
                (a1 (live s) x)
            else a1 (live s) x)
    at_b s = effects-delta (uid_set v6 uid) (user_set uid pm).v6 (user_set uid nm).v6 a1 s x

    at_a :
        (s : SetName)
        → a1 (live s) x ≡ (
            if set_eq (uid_set v4 uid) s
            then moved
                (contains (user_set uid pm).v4 x)
                (contains (user_set uid nm).v4 x)
                (m (live s) x)
            else m (live s) x)
    at_a s = effects-delta (uid_set v4 uid) (user_set uid pm).v4 (user_set uid nm).v4 m s x

    step :
        (s : SetName)
        → (if listed uids s
            then moved (contains (wanted pm s) x) (contains (wanted nm s) x) (b1 (live s) x)
            else b1 (live s) x)
          ≡ (if listed (uid ∷ uids) s
              then moved (contains (wanted pm s) x) (contains (wanted nm s) x) (m (live s) x)
              else m (live s) x)
    step (global_set f) = unfold set_eq in ground (arith, at_a (global_set f), at_b (global_set f))
    step (uid_set v4 u) =
        unfold set_eq family_eq in
        ground (
          arith,
          at_a (uid_set v4 u),
          at_b (uid_set v4 u),
          contains-cons uid uids u,
          int_beq_iff uid u,
        )
    step (uid_set v6 u) =
        unfold set_eq family_eq in
        ground (
          arith,
          at_a (uid_set v6 u),
          at_b (uid_set v6 u),
          contains-cons uid uids u,
          int_beq_iff uid u,
        )
