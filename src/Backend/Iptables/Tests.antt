-- ===== src/Backend/Iptables/Tests.antt =====
-- Tests of the iptables backend, with a system that takes every command.
use request_blocker.Shared.{
  ◌≡◌, refl, true, false, ◌||◌, ◌&&◌, not, none, [], ◌∷◌, list_eq, nat_eq, list_beq, IsMap,
  contains, lookup, sort, if◌then◌else◌,
}
use request_blocker.Text.{codes, pos, int_eq, int_beq, itoa}
use request_blocker.Backend.State.{
  v4, v6, State, no_addresses, blocked, sorted_uids, user_set, diff_strings,
}
use request_blocker.Backend.Nft.Kernel.{family_eq}
use request_blocker.Backend.Iptables.Commands.{build_set_delta, chain_rules, payload, chain_payload}
use request_blocker.Backend.Iptables.Tool.{Firewall, IptablesTool, effects, drops}
use request_blocker.Backend.Iptables.Defs.{IptablesBackend, apply, IsSound}
use request_blocker.Backend.Iptables.Apply.{iptables_apply-IsSound, iptables_apply_exact}

abbrev bare : Firewall
bare = record { member = λ s x. false; chain = λ f. []; jump = λ f. false }

abbrev system : IptablesTool
system = record {
  Live = Firewall;
  view = λ l. l;
  ipset = λ cs l. (record l { member = effects cs l.member }, true);
  restore = λ f rs l. (record l { chain = λ g. if family_eq f g then rs else l.chain g }, true);
  jumps = λ f l. l.jump f;
  insert_jump = λ f l. (record l { jump = λ g. family_eq f g || l.jump g }, true);
  detach = λ f l. (record l { jump = λ g. not (family_eq f g) && l.jump g }, true);
  flush_chain = λ f l. (record l { chain = λ g. if family_eq f g then [] else l.chain g }, true);
  delete_chain = λ f l. (l, true);
  listing = λ l. none;
  destroy_set = λ n l. (l, false);
  ipset_done = λ cs l h. refl;
  restore_done = λ f rs l h. refl;
  jumps_true = λ f l h. h;
  insert_done = λ f l h. refl;
  detach_fails = λ f l h. cc;
  detach_done = λ f l h. refl;
  flush_fails = λ f l h. cc;
  flush_done = λ f l h. refl;
  delete_fails = λ f l h. refl;
  delete_done = λ f l h. refl;
  listing_lists = λ l out h s x k. cc;
  destroy_fails = λ n l h. refl;
  destroy_done = λ n l h. cc;
}

abbrev state : State
state = record {
  global = record { v4 = codes "93.184.216.34" ∷ []; v6 = [] };
  per_user = (pos 1000, record { v4 = codes "10.0.0.5" ∷ []; v6 = [] }) ∷ [];
}

abbrev next : State
next = record { global = no_addresses; per_user = state.per_user }

delta_test :
    payload (build_set_delta state next (sorted_uids next.per_user))
    ≡ codes "del webblk_g_4 93.184.216.34\n"
unfolding payload build_set_delta diff_strings contains list_beq sorted_uids sort user_set lookup
    int_beq itoa
delta_test = refl

chain_test :
    chain_payload v6 (chain_rules (pos 1000 ∷ []))
    ≡ codes
        "*filter\n:WEBBLOCK - [0:0]\n-F WEBBLOCK\n-A WEBBLOCK -m set --match-set webblk_g_6 dst -j DROP\n-A WEBBLOCK -m owner --uid-owner 1000 -m set --match-set webblk_u1000_6 dst -j DROP\nCOMMIT\n"
unfolding chain_payload chain_rules itoa
chain_test = refl

abbrev fresh : IptablesBackend system
fresh = record { last = none; firewall = bare }

state-IsMap : IsMap state.per_user
unfolding contains
state-IsMap = (refl, tt)

fresh-IsSound : IsSound system fresh
fresh-IsSound = tt

applied : (apply system state fresh).1 ≡ true
unfolding apply family_eq
applied = refl

iptables_apply-IsSound_example : IsSound system (apply system state fresh).0
iptables_apply-IsSound_example = iptables_apply-IsSound system state fresh state-IsMap fresh-IsSound

iptables_apply_exact_example :
    drops (apply system state fresh).0.firewall (pos 1000) v4 (codes "10.0.0.5")
    ≡ blocked state (pos 1000) v4 (codes "10.0.0.5")
iptables_apply_exact_example =
    iptables_apply_exact system state fresh state-IsMap fresh-IsSound applied (pos 1000) v4
      (codes "10.0.0.5")
