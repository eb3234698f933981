-- ===== src/Backend/Nft/Deltas.antt =====
-- The effect of a delta's loop over the users.
use request_blocker.Shared.{
  Bool, ◌||◌, List, [], ◌∷◌, ◌≡◌, ◌∙◌, refl, ap, arith, nat_eq, list_eq, ◌==◌, contains,
  contains-cons, Map, if◌then◌else◌,
}
use request_blocker.Text.{Text, ℤ, int_eq, int_beq_iff}
use request_blocker.Backend.State.{Family, v4, v6, IpSet, addresses, user_set}
use request_blocker.Backend.Nft.Commands.{
  SetName, global_set, uid_set, write_element_delta, user_delta, uid_deltas,
}
use request_blocker.Backend.Nft.Kernel.{Ruleset, set_eq, effects, effects-append}
use request_blocker.Backend.Nft.Loops.{
  SameRules, SameRules-refl, SameRules-trans, SameRules-write_element_delta, moved,
  member-write_element_delta,
}

SameRules-user_delta :
    (uid : ℤ) (p n : IpSet) (r : Ruleset) → SameRules r (effects (user_delta uid p n) r)
unfolding user_delta
SameRules-user_delta uid p n r =
    rw
      (effects-append (write_element_delta (uid_set v4 uid) p.v4 n.v4)
        (write_element_delta (uid_set v6 uid) p.v6 n.v6) r)
      (SameRules-trans (SameRules-write_element_delta (uid_set v4 uid) p.v4 n.v4 r)
        (SameRules-write_element_delta (uid_set v6 uid) p.v6 n.v6 _))

-- The step of one family's delta, at any set.
abbrev delta_step : ℤ → Family → IpSet → IpSet → SetName → Text → Bool → Bool
delta_step uid f p n t x m =
    if set_eq (uid_set f uid) t
    then moved (contains (addresses f p) x) (contains (addresses f n) x) m
    else m

member-user_delta :
    (uid : ℤ) (p n : IpSet) (r : Ruleset) (t : SetName) (x : Text)
    → (effects (user_delta uid p n) r).member t x
      ≡ delta_step uid v6 p n t x (delta_step uid v4 p n t x (r.member t x))
unfolding user_delta
member-user_delta uid p n r t x =
    let first = effects (write_element_delta (uid_set v4 uid) p.v4 n.v4) r in
    rw
      (effects-append (write_element_delta (uid_set v4 uid) p.v4 n.v4)
        (write_element_delta (uid_set v6 uid) p.v6 n.v6) r)
      (member-write_element_delta (uid_set v6 uid) p.v6 n.v6 first t x
        ∙ ap (λ m. delta_step uid v6 p n t x m)
            (member-write_element_delta (uid_set v4 uid) p.v4 n.v4 r t x))

pub SameRules-uid_deltas :
    (uids : List ℤ) (p n : Map ℤ IpSet) (r : Ruleset)
    → SameRules r (effects (uid_deltas uids p n) r)
unfolding uid_deltas
SameRules-uid_deltas [] p n r = unfold effects in SameRules-refl r
SameRules-uid_deltas (uid ∷ uids) p n r =
    let d = user_delta uid (user_set uid p) (user_set uid n) in
    rw (effects-append d (uid_deltas uids p n) r) (
      SameRules-trans (SameRules-user_delta uid (user_set uid p) (user_set uid n) r)
        (SameRules-uid_deltas uids p n (effects d r)))

pub global-uid_deltas :
    (uids : List ℤ) (p n : Map ℤ IpSet) (r : Ruleset) (f : Family) (x : Text)
    → (effects (uid_deltas uids p n) r).member (global_set f) x ≡ r.member (global_set f) x
unfolding uid_deltas
global-uid_deltas [] p n r f x = unfold effects in refl
global-uid_deltas (uid ∷ uids) p n r f x =
    let d = user_delta uid (user_set uid p) (user_set uid n) in
    rw (effects-append d (uid_deltas uids p n) r) (
      global-uid_deltas uids p n (effects d r) f x
      ∙ member-user_delta uid (user_set uid p) (user_set uid n) r (global_set f) x
      ∙ unfold set_eq in refl)

-- What the deltas of some users do to a membership in the set of one of them.
abbrev moved_if : Bool → Bool → Bool → Bool → Bool
moved_if own p n m = if own then moved p n m else m

own_delta :
    (uid u : ℤ) (p n : Map ℤ IpSet) (f : Family) (x : Text) (rest old : Bool)
    → moved_if rest
        (contains (addresses f (user_set u p)) x)
        (contains (addresses f (user_set u n)) x)
        (delta_step uid v6
          (user_set uid p)
          (user_set uid n)
          (uid_set f u)
          x
          (delta_step uid v4 (user_set uid p) (user_set uid n) (uid_set f u) x old))
      ≡ moved_if
          (uid == u || rest)
          (contains (addresses f (user_set u p)) x)
          (contains (addresses f (user_set u n)) x)
          old
unfolding set_eq
own_delta uid u p n v4 x rest old = ground (arith, int_beq_iff uid u)
own_delta uid u p n v6 x rest old = ground (arith, int_beq_iff uid u)

pub uid-uid_deltas :
    (uids : List ℤ) (p n : Map ℤ IpSet) (r : Ruleset) (f : Family) (u : ℤ) (x : Text)
    → (effects (uid_deltas uids p n) r).member (uid_set f u) x
      ≡ moved_if
          (contains uids u)
          (contains (addresses f (user_set u p)) x)
          (contains (addresses f (user_set u n)) x)
          (r.member (uid_set f u) x)
unfolding uid_deltas
uid-uid_deltas [] p n r f u x = unfold effects contains in refl
uid-uid_deltas (uid ∷ uids) p n r f u x =
    let d = user_delta uid (user_set uid p) (user_set uid n) in
    rw (effects-append d (uid_deltas uids p n) r) (
      uid-uid_deltas uids p n (effects d r) f u x
      ∙ rw
          (
            member-user_delta uid (user_set uid p) (user_set uid n) r (uid_set f u) x,
            contains-cons uid uids u,
          )
          (own_delta uid u p n f x (contains uids u) (r.member (uid_set f u) x)))
