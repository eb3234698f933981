-- ===== src/Backend/Nft/Matching.antt =====
-- After a delta, the ruleset is the one that the new state asks for, as after a full script.
use request_blocker.Shared.{◌≡◌, ◌∙◌, arith, nat_eq, list_eq, contains}
use request_blocker.Text.{Text, ℤ, int_eq}
use request_blocker.Backend.State.{Family, v4, v6, State, addresses, has_user, contains-sorted_uids}
use request_blocker.Backend.Nft.Commands.{
  global_set, uid_set, write_element_delta, uid_deltas, build_delta,
}
use request_blocker.Backend.Nft.Kernel.{Ruleset, set_eq, effects, effects-append}
use request_blocker.Backend.Nft.Loops.{
  SameRules, SameRules-trans, SameRules-write_element_delta, member-write_element_delta,
}
use request_blocker.Backend.Nft.Deltas.{SameRules-uid_deltas, global-uid_deltas, uid-uid_deltas}
use request_blocker.Backend.Nft.Scripted.{Matches, no_user-addresses, uids}

module _ (p n : State) (r : Ruleset) where
  abbrev first : Ruleset
  first = effects (write_element_delta (global_set v4) p.global.v4 n.global.v4) r

  abbrev second : Ruleset
  second = effects (write_element_delta (global_set v6) p.global.v6 n.global.v6) first

  effects-build_delta :
      effects (build_delta p n) r ≡ effects (uid_deltas (uids n) p.per_user n.per_user) second
  unfolding build_delta
  effects-build_delta =
      rw (effects-append (write_element_delta (global_set v4) p.global.v4 n.global.v4) _ r)
        (effects-append (write_element_delta (global_set v6) p.global.v6 n.global.v6) _ first)

  second-global :
      (f : Family) (x : Text)
      → r.member (global_set f) x ≡ contains (addresses f p.global) x
      → second.member (global_set f) x ≡ contains (addresses f n.global) x
  unfolding set_eq
  second-global v4 x h = ground (
    arith,
    member-write_element_delta (global_set v6) p.global.v6 n.global.v6 first (global_set v4) x,
    member-write_element_delta (global_set v4) p.global.v4 n.global.v4 r (global_set v4) x,
  )
  second-global v6 x h = ground (
    arith,
    member-write_element_delta (global_set v6) p.global.v6 n.global.v6 first (global_set v6) x,
    member-write_element_delta (global_set v4) p.global.v4 n.global.v4 r (global_set v6) x,
  )

  second-uid :
      (f : Family) (u : ℤ) (x : Text) → second.member (uid_set f u) x ≡ r.member (uid_set f u) x
  unfolding set_eq
  second-uid f u x = ground (
    arith,
    member-write_element_delta (global_set v6) p.global.v6 n.global.v6 first (uid_set f u) x,
    member-write_element_delta (global_set v4) p.global.v4 n.global.v4 r (uid_set f u) x,
  )

-- Between states with the same uids, a delta brings a ruleset that matches the old state to one
-- that matches the new state, as a full script does.
pub build_delta-Matches :
    (p n : State) (r : Ruleset)
    → ((u : ℤ) → has_user u p.per_user ≡ has_user u n.per_user)
    → Matches r p
    → Matches (effects (build_delta p n) r) n
build_delta-Matches p n r same m = rw (effects-build_delta p n r) (record {
  hooked = kept.hooked ∙ m.hooked;
  global_rule = λ f. kept.global_rule f ∙ m.global_rule f;
  vmap = λ u. kept.vmap u ∙ m.vmap u ∙ same u;
  uid_rule = λ f u. kept.uid_rule f u ∙ m.uid_rule f u ∙ same u;
  global_member = λ f x.
      global-uid_deltas (uids n) p.per_user n.per_user (second p n r) f x
      ∙ second-global p n r f x (m.global_member f x);
  uid_member = λ f u x.
      uid-uid_deltas (uids n) p.per_user n.per_user (second p n r) f u x
      ∙ ground (
        arith,
        second-uid p n r f u x,
        m.uid_member f u x,
        same u,
        contains-sorted_uids n.per_user u,
        no_user-addresses f u p.per_user x,
        no_user-addresses f u n.per_user x,
      );
})
  where
    kept : SameRules r (effects (uid_deltas (uids n) p.per_user n.per_user) (second p n r))
    kept =
        SameRules-trans (SameRules-write_element_delta (global_set v4) p.global.v4 n.global.v4 r) (
          SameRules-trans
            (SameRules-write_element_delta (global_set v6) p.global.v6 n.global.v6 (first p n r))
            (SameRules-uid_deltas (uids n) p.per_user n.per_user (second p n r)))
