-- ===== src/Backend/Iptables/TeardownRuns.antt =====
-- Tests of `Teardown`, with a system in which one set is filled and nothing can be added.
use request_blocker.Shared.{
  ◌≡◌, refl, Bool, true, false, ◌&&◌, not, none, some, List, [], ◌∷◌, arith, list_eq, nat_eq, ◌==◌,
  subst, list_beq, list_beq_iff, contains, Bool-cases, inl, inr, if◌then◌else◌,
}
use request_blocker.Text.{Text, codes, pos, split, trim_space, has_prefix}
use request_blocker.Backend.State.{Family, v4}
use request_blocker.Backend.Nft.Kernel.{family_eq}
use request_blocker.Backend.Nft.Commands.{global_set}
use request_blocker.Backend.Iptables.Commands.{live, Slot, slot_name, Rule, drop_global}
use request_blocker.Backend.Iptables.Tool.{Firewall, IptablesTool, drops}
use request_blocker.Backend.Iptables.Defs.{IptablesBackend, remove_chain, teardown, list_ipsets}
use request_blocker.Backend.Iptables.Teardown.{
  flushed, teardown-drops, teardown-member, all_destroyed, detached, destroys_all,
}

record System : Type 0 where
  filled : Bool
  chain : Family → List Rule

abbrev g4 : Text
g4 = codes "webblk_g_4"

abbrev view_of : System → Firewall
view_of l = record {
  member = λ s x. l.filled && (slot_name s == g4 && x == codes "10.0.0.5");
  chain = l.chain;
  jump = λ f. true;
}

destroy : Text → System → System × Bool
destroy n l = if n == g4 then (record l { filled = false }, true) else (l, false)

list_sets : Bool → Text
list_sets true = codes "webblk_g_4\n"
list_sets false = []

list_sets-lists :
    (filled : Bool) (s : Slot) (x : Text)
    → (filled && (slot_name s == g4 && x == codes "10.0.0.5")) ≡ true
    → contains (split (list_sets filled) 0x0a) (slot_name s) ≡ true
unfolding list_sets split contains
list_sets-lists true s x h =
    ground (arith, list_beq_iff (slot_name s) g4, list_beq_iff g4 (slot_name s))
list_sets-lists false s x h = ground (arith, h)

destroy-fails :
    (n : Text) (l : System) → (destroy n l).1 ≡ false → view_of (destroy n l).0 ≡ view_of l
unfolding destroy
destroy-fails n l h = elim (Bool-cases (n == g4)) [
  | inl ours ↦ absurd (ground (arith, ours))
  | inr other ↦ rw other refl
]

destroy-done :
    (n : Text) (l : System)
    → (destroy n l).1 ≡ true
    → view_of (destroy n l).0
      ≡ record (view_of l) { member = λ t x. not (slot_name t == n) && (view_of l).member t x }
unfolding destroy
destroy-done n l h = elim (Bool-cases (n == g4)) [
  | inr other ↦ absurd (ground (arith, other))
  | inl ours ↦
      rw ours (λ i. record { member = λ t x. gone ours t x i; chain = l.chain; jump = λ f. true })
]
  where
    gone :
        (n == g4) ≡ true
        → (t : Slot) (x : Text) → false ≡ (not (slot_name t == n) && (view_of l).member t x)
    gone ours t x = ground (
      arith,
      (list_beq_iff n g4).0 ours,
      list_beq_iff (slot_name t) n,
      list_beq_iff (slot_name t) g4,
    )

some-injective : {a b : Text} → some a ≡ some b → a ≡ b
some-injective h = cc

abbrev filled_system : IptablesTool
filled_system = record {
  Live = System;
  view = view_of;
  ipset = λ cs l. (l, false);
  restore = λ f rs l. (l, false);
  jumps = λ f l. true;
  insert_jump = λ f l. (l, false);
  detach = λ f l. (l, false);
  flush_chain = λ f l. (record l { chain = λ g. if family_eq f g then [] else l.chain g }, true);
  delete_chain = λ f l. (l, false);
  listing = λ l. some (list_sets l.filled);
  destroy_set = destroy;
  ipset_done = λ cs l h. cc;
  restore_done = λ f rs l h. cc;
  jumps_true = λ f l h. refl;
  insert_done = λ f l h. cc;
  detach_fails = λ f l h. refl;
  detach_done = λ f l h. cc;
  flush_fails = λ f l h. cc;
  flush_done = λ f l h. refl;
  delete_fails = λ f l h. refl;
  delete_done = λ f l h. cc;
  listing_lists = λ l out h s x k.
      subst (λ t. contains (split t 0x0a) (slot_name s) ≡ true) (some-injective h)
        (list_sets-lists l.filled s x k);
  destroy_fails = destroy-fails;
  destroy_done = destroy-done;
}

abbrev before : IptablesBackend filled_system
before = record { last = none; firewall = record { filled = true; chain = λ f. drop_global ∷ [] } }

was_flushed : flushed filled_system v4 before ≡ true
unfolding flushed
was_flushed = refl

teardown-drops_example :
    ((teardown filled_system before).0.last ≡ none)
    × (drops (view_of (teardown filled_system before).0.firewall) (pos 0) v4 (codes "10.0.0.5")
        ≡ false)
teardown-drops_example =
    teardown-drops filled_system before v4 (pos 0) (codes "10.0.0.5") was_flushed

listed : (teardown filled_system before).1 ≡ true
unfolding teardown list_ipsets list_sets
listed = refl

destroyed :
    all_destroyed filled_system
      (list_ipsets filled_system (detached filled_system before))
      (detached filled_system before)
    ≡ true
unfolding list_ipsets destroys_all split list_sets trim_space has_prefix destroy list_beq
    remove_chain
destroyed = refl

teardown-member_example :
    (view_of (teardown filled_system before).0.firewall).member
      (live (global_set v4))
      (codes "10.0.0.5")
    ≡ false
teardown-member_example =
    teardown-member filled_system before (live (global_set v4)) (codes "10.0.0.5") listed destroyed
