-- ===== src/Backend/Nft/Scripted.antt =====
-- After a full script, the ruleset is the one that the desired state asks for.
use request_blocker.Shared.{
  true, false, ◌||◌, List, ◌≡◌, ◌∙◌, ap, arith, nat_eq, list_eq, contains, Map,
}
use request_blocker.Text.{Text, ℤ, int_eq}
use request_blocker.Backend.State.{
  Family, v4, v6, IpSet, State, addresses, user_set, has_user, sorted_uids, contains-sorted_uids,
  blocked,
}
use request_blocker.Backend.Nft.Commands.{
  SetName, global_set, uid_set, write_elements, uid_elements, build_script, uid_sets, uid_chains,
  vmap_rule,
}
use request_blocker.Backend.Nft.Kernel.{
  Ruleset, family_eq, set_eq, effect, effects, effects-append, drops, no_table,
}
use request_blocker.Backend.Nft.Declared.{Declared}
use request_blocker.Backend.Nft.Loops.{
  SameRules, SameRules-trans, effects-uid_sets, effects-uid_chains, uid_rule-uid_chains,
  vmap-vmap_rule, effects-vmap_rule, SameRules-write_elements, member-write_elements,
}
use request_blocker.Backend.Nft.Users.{
  SameRules-uid_elements, global-uid_elements, uid-uid_elements,
}

-- The ruleset has the rules, the verdict map and the elements of the state.
pub record Matches (r : Ruleset) (s : State) : Type 0 where
  pub hooked : r.hooked ≡ true
  pub global_rule : (f : Family) → r.global_rule f ≡ true
  pub vmap : (u : ℤ) → r.vmap u ≡ has_user u s.per_user
  pub uid_rule : (f : Family) (u : ℤ) → r.uid_rule f u ≡ has_user u s.per_user
  pub global_member :
      (f : Family) (x : Text) → r.member (global_set f) x ≡ contains (addresses f s.global) x
  pub uid_member :
      (f : Family) (u : ℤ) (x : Text)
      → r.member (uid_set f u) x ≡ contains (addresses f (user_set u s.per_user)) x

pub no_user-addresses :
    (f : Family) (u : ℤ) (m : Map ℤ IpSet) (x : Text)
    → has_user u m ≡ false
    → contains (addresses f (user_set u m)) x ≡ false
unfolding user_set contains
no_user-addresses v4 u m x h = ground arith
no_user-addresses v6 u m x h = ground arith

-- A matching ruleset drops what the state blocks.
pub Matches-drops :
    (r : Ruleset) (s : State)
    → Matches r s
    → (u : ℤ) (f : Family) (x : Text) → drops r u f x ≡ blocked s u f x
Matches-drops r s m u f x = ground (
  arith,
  m.hooked,
  m.global_rule f,
  m.vmap u,
  m.uid_rule f u,
  m.global_member f x,
  m.uid_member f u x,
  no_user-addresses f u s.per_user x,
)

module _ (s : State) where
  abbrev pub uids : List ℤ
  uids = sorted_uids s.per_user

  -- The rulesets on the way through `build_script`.
  abbrev chains : Ruleset
  chains = effects (uid_chains uids) (record no_table { hooked = true })

  abbrev rules : Ruleset
  rules = effects (vmap_rule uids) (record chains {
    global_rule = λ g. family_eq v6 g || (family_eq v4 g || chains.global_rule g);
  })

  abbrev globals4 : Ruleset
  globals4 = effects (write_elements (global_set v4) s.global.v4) rules

  abbrev globals : Ruleset
  globals = effects (write_elements (global_set v6) s.global.v6) globals4

  effects-build_script :
      (r : Ruleset) → effects (build_script s) r ≡ effects (uid_elements uids s.per_user) globals
  unfolding build_script effects effect
  effects-build_script r = rw (effects-append (uid_sets uids) _ no_table) (
      rw (effects-uid_sets uids no_table) (
        rw (effects-append (uid_chains uids) _ (record no_table { hooked = true })) (
          rw
            (effects-append (vmap_rule uids) _ (record chains {
              global_rule = λ g. family_eq v6 g || (family_eq v4 g || chains.global_rule g);
            }))
            (rw (effects-append (write_elements (global_set v4) s.global.v4) _ rules)
              (effects-append (write_elements (global_set v6) s.global.v6) _ globals4)))))

  kept_rules : SameRules rules (effects (uid_elements uids s.per_user) globals)
  kept_rules = SameRules-trans (SameRules-write_elements (global_set v4) s.global.v4 rules) (
      SameRules-trans (SameRules-write_elements (global_set v6) s.global.v6 globals4)
        (SameRules-uid_elements uids s.per_user globals))

  rules-hooked : rules.hooked ≡ true
  rules-hooked =
      (effects-vmap_rule uids _).0 ∙ (effects-uid_chains uids (record no_table { hooked = true })).0

  rules-global_rule : (f : Family) → rules.global_rule f ≡ true
  unfolding family_eq
  rules-global_rule v4 = ap (λ g. g v4) (effects-vmap_rule uids _).1
  rules-global_rule v6 = ap (λ g. g v6) (effects-vmap_rule uids _).1

  rules-vmap : (u : ℤ) → rules.vmap u ≡ has_user u s.per_user
  rules-vmap u =
      vmap-vmap_rule uids _ u
      ∙ ground (
        arith,
        contains-sorted_uids s.per_user u,
        ap (λ g. g u) (effects-uid_chains uids (record no_table { hooked = true })).2,
      )

  rules-uid_rule : (f : Family) (u : ℤ) → rules.uid_rule f u ≡ has_user u s.per_user
  rules-uid_rule f u =
      ap (λ g. g f u) (effects-vmap_rule uids _).2
      ∙ uid_rule-uid_chains uids (record no_table { hooked = true }) f u
      ∙ ground (arith, contains-sorted_uids s.per_user u)

  rules-member : (t : SetName) (x : Text) → rules.member t x ≡ false
  rules-member t x =
      ap (λ g. g t x) (effects-vmap_rule uids _).3
      ∙ ap (λ g. g t x) (effects-uid_chains uids (record no_table { hooked = true })).3

  globals-global :
      (f : Family) (x : Text) → globals.member (global_set f) x ≡ contains (addresses f s.global) x
  unfolding set_eq
  globals-global v4 x = ground (
    arith,
    member-write_elements (global_set v6) s.global.v6 globals4 (global_set v4) x,
    member-write_elements (global_set v4) s.global.v4 rules (global_set v4) x,
    rules-member (global_set v4) x,
  )
  globals-global v6 x = ground (
    arith,
    member-write_elements (global_set v6) s.global.v6 globals4 (global_set v6) x,
    member-write_elements (global_set v4) s.global.v4 rules (global_set v6) x,
    rules-member (global_set v6) x,
  )

  globals-uid : (f : Family) (u : ℤ) (x : Text) → globals.member (uid_set f u) x ≡ false
  unfolding set_eq
  globals-uid f u x = ground (
    arith,
    member-write_elements (global_set v6) s.global.v6 globals4 (uid_set f u) x,
    member-write_elements (global_set v4) s.global.v4 rules (uid_set f u) x,
    rules-member (uid_set f u) x,
  )

-- A full script brings any ruleset to one that matches the state.
pub build_script-Matches : (s : State) (r : Ruleset) → Matches (effects (build_script s) r) s
build_script-Matches s r = rw (effects-build_script s r) (record {
  hooked = (kept_rules s).hooked ∙ rules-hooked s;
  global_rule = λ f. (kept_rules s).global_rule f ∙ rules-global_rule s f;
  vmap = λ u. (kept_rules s).vmap u ∙ rules-vmap s u;
  uid_rule = λ f u. (kept_rules s).uid_rule f u ∙ rules-uid_rule s f u;
  global_member =
      λ f x. global-uid_elements (uids s) s.per_user (globals s) f x ∙ globals-global s f x;
  uid_member = λ f u x.
      uid-uid_elements (uids s) s.per_user (globals s) f u x
      ∙ ground (
        arith,
        globals-uid s f u x,
        contains-sorted_uids s.per_user u,
        no_user-addresses f u s.per_user x,
      );
})
