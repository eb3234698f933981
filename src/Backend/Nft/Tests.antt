-- ===== src/Backend/Nft/Tests.antt =====
-- internal/backend/nft_test.go, and a model of `nft`.
use request_blocker.Shared.{
  ◌≡◌, refl, arith, true, false, if◌then◌else◌, none, [], ◌∷◌, list_eq, nat_eq, list_beq, IsMap,
  contains, lookup, sort,
}
use request_blocker.Text.{codes, ℤ, pos, int_eq, int_beq, int_ord, itoa, join}
use request_blocker.Backend.State.{
  v4, State, no_addresses, has_user, sorted_uids, diff_strings, blocked, user_set,
}
use request_blocker.Backend.Nft.Commands.{build_script, build_delta, script_text}
use request_blocker.Backend.Nft.Kernel.{Ruleset, NftTool, effects, no_table, drops}
use request_blocker.Backend.Nft.Scripted.{Matches, build_script-Matches}
use request_blocker.Backend.Nft.Matching.{build_delta-Matches}
use request_blocker.Backend.Nft.Apply.{
  NftBackend, teardown, apply, IsSound, apply-IsSound, apply_exact,
}
use request_blocker.Backend.Nft.Teardown.{nft_teardown_lem}

-- A kernel that takes every transaction.
abbrev tool : NftTool
tool = record {
  Live = Ruleset;
  view = λ r. r;
  run = λ cs r. (effects cs r, true);
  run_fails = λ cs r e. absurd (ground arith);
  run_done = λ cs r e. refl;
}

abbrev state : State
state = record {
  global = record { v4 = codes "93.184.216.34" ∷ []; v6 = codes "2001:db8::1" ∷ [] };
  per_user = (pos 1000, record { v4 = codes "10.0.0.5" ∷ []; v6 = [] }) ∷ [];
}

abbrev next : State
next = record {
  global = record { v4 = []; v6 = codes "2001:db8::1" ∷ [] };
  per_user = (pos 1000, record { v4 = codes "10.0.0.6" ∷ []; v6 = [] }) ∷ [];
}

delta_test :
    script_text (build_delta state next)
    ≡ codes
        "delete element inet webblock blocked_v4_global { 93.184.216.34 }\nadd element inet webblock blocked_v4_uid_1000 { 10.0.0.6 }\ndelete element inet webblock blocked_v4_uid_1000 { 10.0.0.5 }\n"
unfolding script_text build_delta diff_strings contains join list_beq sorted_uids sort user_set
    lookup int_beq itoa
delta_test = refl

script_test :
    script_text (build_script (record { global = no_addresses; per_user = [] }))
    ≡ codes
        "add table inet webblock\ndelete table inet webblock\nadd table inet webblock\nadd set inet webblock blocked_v4_global { type ipv4_addr; }\nadd set inet webblock blocked_v6_global { type ipv6_addr; }\nadd chain inet webblock output { type filter hook output priority 0; policy accept; }\nadd rule inet webblock output ip daddr @blocked_v4_global drop\nadd rule inet webblock output ip6 daddr @blocked_v6_global drop\n"
unfolding script_text build_script sorted_uids sort
script_test = refl

same_users : (u : ℤ) → has_user u state.per_user ≡ has_user u next.per_user
unfolding lookup
same_users u = ground (arith)

build_delta-Matches_example :
    Matches (effects (build_delta state next) (effects (build_script state) no_table)) next
build_delta-Matches_example =
    build_delta-Matches state next (effects (build_script state) no_table) same_users
      (build_script-Matches state no_table)

abbrev fresh : NftBackend tool
fresh = record { last = none; live = no_table }

state-IsMap : IsMap state.per_user
unfolding contains
state-IsMap = (refl, tt)

fresh-IsSound : IsSound tool fresh
fresh-IsSound = tt

apply-IsSound_example : IsSound tool (apply tool state fresh).0
apply-IsSound_example = apply-IsSound tool state fresh state-IsMap fresh-IsSound

apply_exact_example :
    drops (apply tool state fresh).0.live (pos 1000) v4 (codes "10.0.0.5")
    ≡ blocked state (pos 1000) v4 (codes "10.0.0.5")
apply_exact_example =
    apply_exact tool state fresh state-IsMap fresh-IsSound succeeds (pos 1000) v4 (codes "10.0.0.5")
  where
    succeeds : (apply tool state fresh).1 ≡ true
    succeeds = unfold apply in refl

nft_teardown_lem_example :
    ((teardown tool fresh).0.last ≡ none)
    × (drops (teardown tool fresh).0.live (pos 1000) v4 (codes "10.0.0.5") ≡ (
        if (teardown tool fresh).1 then false else drops no_table (pos 1000) v4 (codes "10.0.0.5")))
nft_teardown_lem_example = nft_teardown_lem tool fresh (pos 1000) v4 (codes "10.0.0.5")
