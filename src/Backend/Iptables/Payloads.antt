-- ===== src/Backend/Iptables/Payloads.antt =====
-- The two payloads for ipset as a whole, and the rules of the chains.
use request_blocker.Shared.{
  Bool, true, ◌||◌, ◌&&◌, List, [], ◌∷◌, ◌++◌, ◌≡◌, ◌∙◌, arith, list_eq, nat_eq, ◌==◌, contains,
  contains-nil, contains-cons, if◌then◌else◌,
}
use request_blocker.Text.{Text, ℤ, int_eq, int_beq_iff}
use request_blocker.Backend.State.{Family, v4, v6, State, addresses, user_set}
use request_blocker.Backend.Nft.Commands.{SetName, global_set, uid_set}
use request_blocker.Backend.Nft.Kernel.{family_eq, set_eq}
use request_blocker.Backend.Nft.Loops.{moved}
use request_blocker.Backend.Iptables.Commands.{
  live, write_set_elem_delta, user_set_deltas, build_set_delta, write_set_refresh, user_refreshes,
  refresh_all_sets, user_rules, chain_rules,
}
use request_blocker.Backend.Iptables.Tool.{
  Members, effects, effects-append, rule_drops, chain_drops,
}
use request_blocker.Backend.Iptables.Sets.{
  effects-refresh, effects-delta, effects-user_refreshes, effects-user_deltas, listed, wanted,
}

-- The elements that the state asks for in a set.
abbrev pub asked : State → SetName → List Text
asked s (global_set f) = addresses f s.global
asked s (uid_set f u) = addresses f (user_set u s.per_user)

-- The sets that a payload for the given uids is about.
abbrev pub covered : List ℤ → SetName → Bool
covered uids (global_set f) = true
covered uids (uid_set f u) = contains uids u

pub effects-refresh_all :
    (s : State) (uids : List ℤ) (m : Members) (t : SetName) (x : Text)
    → effects (refresh_all_sets s uids) m (live t) x
      ≡ (if covered uids t then contains (asked s t) x else m (live t) x)
unfolding refresh_all_sets
effects-refresh_all s uids m t x =
    let a = write_set_refresh (global_set v4) s.global.v4 in
    let b = write_set_refresh (global_set v6) s.global.v6 in
    rw (effects-append a (b ++ user_refreshes uids s.per_user) m) (
      rw (effects-append b (user_refreshes uids s.per_user) (effects a m))
        (effects-user_refreshes uids s.per_user (effects b (effects a m)) t x ∙ step t))
  where
    a1 : Members
    a1 = effects (write_set_refresh (global_set v4) s.global.v4) m

    b1 : Members
    b1 = effects (write_set_refresh (global_set v6) s.global.v6) a1

    at_b :
        (n : SetName)
        → b1 (live n) x
          ≡ (if set_eq (global_set v6) n then contains s.global.v6 x else a1 (live n) x)
    at_b n = effects-refresh (global_set v6) s.global.v6 a1 n x

    at_a :
        (n : SetName)
        → a1 (live n) x
          ≡ (if set_eq (global_set v4) n then contains s.global.v4 x else m (live n) x)
    at_a n = effects-refresh (global_set v4) s.global.v4 m n x

    step :
        (n : SetName)
        → (if listed uids n then contains (wanted s.per_user n) x else b1 (live n) x)
          ≡ (if covered uids n then contains (asked s n) x else m (live n) x)
    step (global_set v4) =
        unfold set_eq family_eq in ground (arith, at_a (global_set v4), at_b (global_set v4))
    step (global_set v6) =
        unfold set_eq family_eq in ground (arith, at_a (global_set v6), at_b (global_set v6))
    step (uid_set f u) = unfold set_eq in ground (arith, at_a (uid_set f u), at_b (uid_set f u))

pub effects-set_delta :
    (p n : State) (uids : List ℤ) (m : Members) (t : SetName) (x : Text)
    → effects (build_set_delta p n uids) m (live t) x ≡ (
        if covered uids t
        then moved (contains (asked p t) x) (contains (asked n t) x) (m (live t) x)
        else m (live t) x)
unfolding build_set_delta
effects-set_delta p n uids m t x =
    let a = write_set_elem_delta (global_set v4) p.global.v4 n.global.v4 in
    let b = write_set_elem_delta (global_set v6) p.global.v6 n.global.v6 in
    rw (effects-append a (b ++ user_set_deltas uids p.per_user n.per_user) m) (
      rw (effects-append b (user_set_deltas uids p.per_user n.per_user) (effects a m))
        (effects-user_deltas uids p.per_user n.per_user (effects b (effects a m)) t x ∙ step t))
  where
    a1 : Members
    a1 = effects (write_set_elem_delta (global_set v4) p.global.v4 n.global.v4) m

    b1 : Members
    b1 = effects (write_set_elem_delta (global_set v6) p.global.v6 n.global.v6) a1

    at_b :
        (s : SetName)
        → b1 (live s) x ≡ (
            if set_eq (global_set v6) s
            then moved (contains p.global.v6 x) (contains n.global.v6 x) (a1 (live s) x)
            else a1 (live s) x)
    at_b s = effects-delta (global_set v6) p.global.v6 n.global.v6 a1 s x

    at_a :
        (s : SetName)
        → a1 (live s) x ≡ (
            if set_eq (global_set v4) s
            then moved (contains p.global.v4 x) (contains n.global.v4 x) (m (live s) x)
            else m (live s) x)
    at_a s = effects-delta (global_set v4) p.global.v4 n.global.v4 m s x

    step :
        (s : SetName)
        → (if listed uids s
            then moved
                (contains (wanted p.per_user s) x)
                (contains (wanted n.per_user s) x)
                (b1 (live s) x)
            else b1 (live s) x)
          ≡ (if covered uids s
              then moved (contains (asked p s) x) (contains (asked n s) x) (m (live s) x)
              else m (live s) x)
    step (global_set v4) =
        unfold set_eq family_eq in ground (arith, at_a (global_set v4), at_b (global_set v4))
    step (global_set v6) =
        unfold set_eq family_eq in ground (arith, at_a (global_set v6), at_b (global_set v6))
    step (uid_set f u) = unfold set_eq in ground (arith, at_a (uid_set f u), at_b (uid_set f u))

user_rules-drops :
    (uids : List ℤ) (m : Members) (u : ℤ) (f : Family) (x : Text)
    → chain_drops m u f x (user_rules uids) ≡ (contains uids u && m (live (uid_set f u)) x)
unfolding chain_drops user_rules rule_drops
user_rules-drops [] m u f x = ground (arith, contains-nil u)
user_rules-drops (uid ∷ uids) m u f x = ground (
  arith,
  user_rules-drops uids m u f x,
  contains-cons uid uids u,
  int_beq_iff uid u,
  at_uid uid u (int_beq_iff uid u).0,
)
  where
    at_uid :
        (a b : ℤ)
        → ((a == b) ≡ true → a ≡ b)
        → (a == b && m (live (uid_set f a)) x) ≡ (a == b && m (live (uid_set f b)) x)
    at_uid a b h = ground (arith, h)

pub chain_rules-drops :
    (uids : List ℤ) (m : Members) (u : ℤ) (f : Family) (x : Text)
    → chain_drops m u f x (chain_rules uids)
      ≡ (m (live (global_set f)) x || (contains uids u && m (live (uid_set f u)) x))
unfolding chain_drops chain_rules rule_drops
chain_rules-drops uids m u f x = ground (arith, user_rules-drops uids m u f x)
