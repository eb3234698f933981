-- ===== src/Backend/Nft/Users.antt =====
-- The effect of the loops over the users: the elements of a script and those of a delta.
use request_blocker.Shared.{
  Bool, ◌||◌, ◌&&◌, List, [], ◌∷◌, ◌≡◌, ◌∙◌, refl, ap, arith, nat_eq, list_eq, ◌==◌, contains,
  contains-cons, Map,
}
use request_blocker.Text.{Text, ℤ, int_eq, int_beq_iff}
use request_blocker.Backend.State.{Family, v4, v6, IpSet, addresses, user_set}
use request_blocker.Backend.Nft.Commands.{
  SetName, global_set, uid_set, write_elements, user_elements, uid_elements,
}
use request_blocker.Backend.Nft.Kernel.{Ruleset, set_eq, effects, effects-append}
use request_blocker.Backend.Nft.Loops.{
  SameRules, SameRules-refl, SameRules-trans, SameRules-write_elements, member-write_elements,
}

-- The set of a user holds the same after a script for another set.
SameRules-user_elements :
    (uid : ℤ) (s : IpSet) (r : Ruleset) → SameRules r (effects (user_elements uid s) r)
unfolding user_elements
SameRules-user_elements uid s r =
    rw
      (effects-append (write_elements (uid_set v4 uid) s.v4) (write_elements (uid_set v6 uid) s.v6)
        r)
      (SameRules-trans (SameRules-write_elements (uid_set v4 uid) s.v4 r)
        (SameRules-write_elements (uid_set v6 uid) s.v6 _))

-- Whether a set is the set of a user for a family.
abbrev is_own : ℤ → Family → SetName → Bool
is_own uid f t = set_eq (uid_set f uid) t

member-user_elements :
    (uid : ℤ) (s : IpSet) (r : Ruleset) (t : SetName) (x : Text)
    → (effects (user_elements uid s) r).member t x ≡ (
        (is_own uid v6 t && contains s.v6 x)
        || ((is_own uid v4 t && contains s.v4 x) || r.member t x))
unfolding user_elements
member-user_elements uid s r t x =
    let first = effects (write_elements (uid_set v4 uid) s.v4) r in
    rw
      (effects-append (write_elements (uid_set v4 uid) s.v4) (write_elements (uid_set v6 uid) s.v6)
        r)
      (member-write_elements (uid_set v6 uid) s.v6 first t x
        ∙ ap (λ b. (is_own uid v6 t && contains s.v6 x) || b)
            (member-write_elements (uid_set v4 uid) s.v4 r t x))

pub SameRules-uid_elements :
    (uids : List ℤ) (m : Map ℤ IpSet) (r : Ruleset) → SameRules r (effects (uid_elements uids m) r)
unfolding uid_elements
SameRules-uid_elements [] m r = unfold effects in SameRules-refl r
SameRules-uid_elements (uid ∷ uids) m r =
    let s = user_set uid m in
    rw (effects-append (user_elements uid s) (uid_elements uids m) r) (
      SameRules-trans (SameRules-user_elements uid s r)
        (SameRules-uid_elements uids m (effects (user_elements uid s) r)))

pub global-uid_elements :
    (uids : List ℤ) (m : Map ℤ IpSet) (r : Ruleset) (f : Family) (x : Text)
    → (effects (uid_elements uids m) r).member (global_set f) x ≡ r.member (global_set f) x
unfolding uid_elements
global-uid_elements [] m r f x = unfold effects in refl
global-uid_elements (uid ∷ uids) m r f x =
    let s = user_set uid m in
    rw (effects-append (user_elements uid s) (uid_elements uids m) r) (
      global-uid_elements uids m (effects (user_elements uid s) r) f x
      ∙ member-user_elements uid s r (global_set f) x
      ∙ unfold set_eq in refl)

-- The step of the next lemma, at one user and one family.
own_elements :
    (uid u : ℤ) (m : Map ℤ IpSet) (f : Family) (x : Text) (rest old : Bool)
    → ((rest && contains (addresses f (user_set u m)) x)
        || ((is_own uid v6 (uid_set f u) && contains (user_set uid m).v6 x)
            || ((is_own uid v4 (uid_set f u) && contains (user_set uid m).v4 x) || old)))
      ≡ (((uid == u || rest) && contains (addresses f (user_set u m)) x) || old)
unfolding set_eq
own_elements uid u m v4 x rest old = ground (arith, int_beq_iff uid u)
own_elements uid u m v6 x rest old = ground (arith, int_beq_iff uid u)

pub uid-uid_elements :
    (uids : List ℤ) (m : Map ℤ IpSet) (r : Ruleset) (f : Family) (u : ℤ) (x : Text)
    → (effects (uid_elements uids m) r).member (uid_set f u) x
      ≡ ((contains uids u && contains (addresses f (user_set u m)) x) || r.member (uid_set f u) x)
unfolding uid_elements
uid-uid_elements [] m r f u x = unfold effects contains in refl
uid-uid_elements (uid ∷ uids) m r f u x =
    let s = user_set uid m in
    rw (effects-append (user_elements uid s) (uid_elements uids m) r) (
      uid-uid_elements uids m (effects (user_elements uid s) r) f u x
      ∙ rw (member-user_elements uid s r (uid_set f u) x, contains-cons uid uids u)
          (own_elements uid u m f x (contains uids u) (r.member (uid_set f u) x)))
