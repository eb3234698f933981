-- ===== src/Backend/Nft/Accepted.antt =====
-- `buildScript` names only what it has declared: nft takes it.
use request_blocker.Shared.{
  Bool, true, false, ◌||◌, ◌&&◌, List, [], ◌∷◌, ◌++◌, ◌≡◌, ◌∙◌, refl, ap, arith, nat_eq, list_eq,
  Map,
}
use request_blocker.Text.{Text, ℤ, int_eq, int_beq_iff}
use request_blocker.Backend.State.{v4, v6, IpSet, State, user_set, sorted_uids}
use request_blocker.Backend.Nft.Commands.{
  SetName, global_set, uid_set, Command, add_output_chain, add_set, add_uid_chain, add_global_rule,
  uid_sets, uid_chains, vmap_rule, write_elements, user_elements, uid_elements, build_script,
}
use request_blocker.Backend.Nft.Kernel.{family_eq, set_eq}
use request_blocker.Backend.Nft.Declared.{
  Declared, nothing, declare, all_chains, accepts, declares, accepted, accepted-append,
  declares-append,
}

-- The sets of all uids of a list are there.
unfoldable pub all_sets : List ℤ → (SetName → Bool) → Bool
all_sets [] set = true
all_sets (u ∷ us) set = (set (uid_set v4 u) && set (uid_set v6 u)) && all_sets us set

module _ (m : Map ℤ IpSet) where
  write_elements-accepted :
      (s : SetName) (xs : List Text) (d : Declared)
      → d.set s ≡ true
      → (accepted (write_elements s xs) d ≡ true) × (declares (write_elements s xs) d ≡ d)
  unfolding accepted accepts declares declare write_elements
  write_elements-accepted s [] d h = (refl, refl)
  write_elements-accepted s (x ∷ xs) d h = (ground (arith, h), refl)

  pair_accepted :
      (cs ds : List Command) (d : Declared)
      → (accepted cs d ≡ true) × (declares cs d ≡ d)
      → (accepted ds d ≡ true) × (declares ds d ≡ d)
      → (accepted (cs ++ ds) d ≡ true) × (declares (cs ++ ds) d ≡ d)
  pair_accepted cs ds d (a, b) (a', b') =
      (accepted-append cs ds d ∙ rw (a, b) a', declares-append cs ds d ∙ rw b b')

  uid_elements-accepted :
      (us : List ℤ) (d : Declared)
      → all_sets us d.set ≡ true
      → (accepted (uid_elements us m) d ≡ true) × (declares (uid_elements us m) d ≡ d)
  unfolding uid_elements all_sets user_elements accepted declares
  uid_elements-accepted [] d h = (refl, refl)
  uid_elements-accepted (u ∷ us) d h =
      let own = user_set u m in
      pair_accepted (user_elements u own) (uid_elements us m) d
        (pair_accepted (write_elements (uid_set v4 u) own.v4) (write_elements (uid_set v6 u) own.v6)
          d (write_elements-accepted (uid_set v4 u) own.v4 d (ground (arith, h)))
          (write_elements-accepted (uid_set v6 u) own.v6 d (ground (arith, h))))
        (uid_elements-accepted us d (ground (arith, h)))

set_eq_refl : (s : SetName) → set_eq s s ≡ true
unfolding set_eq family_eq
set_eq_refl (global_set v4) = refl
set_eq_refl (global_set v6) = refl
set_eq_refl (uid_set v4 u) = ground (arith, int_beq_iff u u)
set_eq_refl (uid_set v6 u) = ground (arith, int_beq_iff u u)

both_accepted :
    (cs ds : List Command) (d : Declared)
    → accepted cs d ≡ true
    → accepted ds (declares cs d) ≡ true
    → accepted (cs ++ ds) d ≡ true
both_accepted cs ds d a b = ground (arith, accepted-append cs ds d, a, b)

-- What is there after the sets of the uids are added.
record AfterSets (us : List ℤ) (d : Declared) : Type 0 where
  runs : accepted (uid_sets us) d ≡ true
  table : (declares (uid_sets us) d).table ≡ true
  kept : (t : SetName) → d.set t ≡ true → (declares (uid_sets us) d).set t ≡ true
  own : all_sets us (declares (uid_sets us) d).set ≡ true

uid_sets-AfterSets : (us : List ℤ) (d : Declared) → d.table ≡ true → AfterSets us d
unfolding accepted accepts declares declare uid_sets all_sets
uid_sets-AfterSets [] d h = record { runs = refl; table = h; kept = λ t k. k; own = refl }
uid_sets-AfterSets (u ∷ us) d h =
    let r =
      uid_sets-AfterSets us (declare (add_set (uid_set v6 u)) (declare (add_set (uid_set v4 u)) d))
        h in
    record {
      runs = ground (arith, h, r.runs);
      table = r.table;
      kept = λ t k. r.kept t (ground (arith, k));
      own = ground (
        arith,
        r.own,
        r.kept (uid_set v4 u) (ground (arith, set_eq_refl (uid_set v4 u))),
        r.kept (uid_set v6 u) (ground (arith, set_eq_refl (uid_set v6 u))),
      );
    }

-- And after their chains are.
record AfterChains (us : List ℤ) (d : Declared) : Type 0 where
  runs : accepted (uid_chains us) d ≡ true
  output : (declares (uid_chains us) d).output ≡ d.output
  set : (declares (uid_chains us) d).set ≡ d.set
  kept : (u : ℤ) → d.chain u ≡ true → (declares (uid_chains us) d).chain u ≡ true
  own : all_chains us (declares (uid_chains us) d) ≡ true

uid_chains-AfterChains :
    (us : List ℤ) (d : Declared) → d.table ≡ true → all_sets us d.set ≡ true → AfterChains us d
unfolding accepted accepts declares declare uid_chains all_sets all_chains
uid_chains-AfterChains [] d h k = record {
  runs = refl;
  output = refl;
  set = refl;
  kept = λ u c. c;
  own = refl;
}
uid_chains-AfterChains (u ∷ us) d h k =
    let r = uid_chains-AfterChains us (declare (add_uid_chain u) d) h (ground (arith, k)) in
    record {
      runs = ground (arith, h, k, r.runs, int_beq_iff u u);
      output = r.output;
      set = r.set;
      kept = λ v c. r.kept v (ground (arith, c));
      own = ground (arith, r.own, r.kept u (ground (arith, int_beq_iff u u)));
    }

vmap_rule-accepted :
    (us : List ℤ) (d : Declared)
    → d.output ≡ true
    → all_chains us d ≡ true
    → (accepted (vmap_rule us) d ≡ true) × (declares (vmap_rule us) d ≡ d)
unfolding accepted accepts declares declare vmap_rule
vmap_rule-accepted [] d h k = (refl, refl)
vmap_rule-accepted (u ∷ us) d h k = (ground (arith, h, k), refl)

module _ (s : State) where
  -- What is there when the sets of the uids are added, when the chains are, and then.
  abbrev at_sets : Declared
  at_sets = record nothing {
    table = true;
    set = λ t. set_eq (global_set v6) t || (set_eq (global_set v4) t || false);
  }

  abbrev users : List ℤ
  users = sorted_uids s.per_user

  abbrev at_chains : Declared
  at_chains = record (declares (uid_sets users) at_sets) { output = true }

  abbrev at_rules : Declared
  at_rules = declares (uid_chains users) at_chains

  -- The parts of the script from behind.
  abbrev elements : List Command
  elements =
      write_elements (global_set v4) s.global.v4
      ++ (write_elements (global_set v6) s.global.v6 ++ uid_elements users s.per_user)

  abbrev from_rules : List Command
  from_rules = add_global_rule v4 ∷ add_global_rule v6 ∷ (vmap_rule users ++ elements)

  abbrev from_output : List Command
  from_output = add_output_chain ∷ (uid_chains users ++ from_rules)

  elements-accepted :
      (at_rules.set (global_set v4) ≡ true)
      → (at_rules.set (global_set v6) ≡ true)
      → all_sets users at_rules.set ≡ true
      → accepted elements at_rules ≡ true
  elements-accepted g4 g6 own =
      (pair_accepted s.per_user (write_elements (global_set v4) s.global.v4) _ at_rules
        (write_elements-accepted s.per_user (global_set v4) s.global.v4 at_rules g4)
        (pair_accepted s.per_user (write_elements (global_set v6) s.global.v6) _ at_rules
          (write_elements-accepted s.per_user (global_set v6) s.global.v6 at_rules g6)
          (uid_elements-accepted s.per_user users at_rules own))).0

  -- nft accepts a full script whatever is there before it.
  pub build_script-accepted : (d : Declared) → accepted (build_script s) d ≡ true
  unfolding build_script accepted accepts declare
  build_script-accepted d =
      let sets = uid_sets-AfterSets users at_sets refl in
      let chains = uid_chains-AfterChains users at_chains sets.table sets.own in
      let g4 : at_rules.set (global_set v4) ≡ true =
        ap (λ f. f (global_set v4)) chains.set
        ∙ sets.kept (global_set v4) (ground (arith, set_eq_refl (global_set v4))) in
      let g6 : at_rules.set (global_set v6) ≡ true =
        ap (λ f. f (global_set v6)) chains.set
        ∙ sets.kept (global_set v6) (ground (arith, set_eq_refl (global_set v6))) in
      let own : all_sets users at_rules.set ≡ true = ap (all_sets users) chains.set ∙ sets.own in
      let (jumps, same) = vmap_rule-accepted users at_rules chains.output chains.own in
      both_accepted (uid_sets users) from_output at_sets sets.runs (
        ground (
          arith,
          sets.table,
          both_accepted (uid_chains users) from_rules at_chains chains.runs (
              ground (
                arith,
                chains.output,
                g4,
                g6,
                both_accepted (vmap_rule users) elements at_rules jumps
                    (ap (accepted elements) same ∙ elements-accepted g4 g6 own),
              )),
        ))
