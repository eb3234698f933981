-- ===== src/Backend/Iptables/Defs.antt =====
-- `Apply`, `fullApply`, `rebuildChain`, `Teardown` and `listIpsets` of
-- internal/backend/iptables.go. A full apply that fails half way leaves the firewall in between.
use request_blocker.Shared.{
  Bool, true, false, not, Option, none, some, List, [], ◌∷◌, list_eq, nat_eq, ◌==◌, length, IsMap,
  if◌then◌else◌,
}
use request_blocker.Text.{Text, codes, ℤ, int_eq, split, trim_space, has_prefix}
use request_blocker.Backend.State.{Family, v4, v6, State, sorted_uids, same_uids}
use request_blocker.Backend.Iptables.Commands.{build_set_delta, refresh_all_sets, chain_rules}
use request_blocker.Backend.Iptables.Tool.{Firewall, IptablesTool}
use request_blocker.Backend.Iptables.Matching.{Matches}

-- The lines of a command's output that are not empty.
unfoldable pub nonempty_lines : List Text → List Text
nonempty_lines [] = []
nonempty_lines (line ∷ lines) =
    let t = trim_space line in
    let rest = nonempty_lines lines in if length t == 0 then rest else t ∷ rest

module _ (tool : IptablesTool) where
  open tool use {
    Live, view, ipset, restore, jumps, insert_jump, detach, flush_chain, delete_chain, listing,
    destroy_set,
  }

  pub record IptablesBackend : Type 0 where
    pub last : Option State
    pub firewall : Live

  -- `newIptablesBackend`, on the firewall as it is.
  abbrev pub new_iptables_backend : Live → IptablesBackend
  new_iptables_backend l = record { last = none; firewall = l }

  abbrev pub ensure_jump : Family → Live → Live × Bool
  ensure_jump f l = if jumps f l then (l, true) else insert_jump f l

  unfoldable pub rebuild_chain : Family → List ℤ → Live → Live × Bool
  rebuild_chain f uids l =
      let (l1, done) = restore f (chain_rules uids) l in
      if done then ensure_jump f l1 else (l1, false)

  unfoldable pub full_apply : State → List ℤ → Live → Live × Bool
  unfolding rebuild_chain
  full_apply state uids l =
      let (l1, refreshed) = ipset (refresh_all_sets state uids) l in
      let (l2, done4) = rebuild_chain v4 uids l1 in
      let (l3, done6) = rebuild_chain v6 uids l2 in
      if not refreshed then (l1, false) else if not done4 then (l2, false) else (l3, done6)

  -- What `Apply` remembers after a full apply.
  abbrev pub remembered : State → Live × Bool → IptablesBackend × Bool
  remembered state (l, false) = (record { last = none; firewall = l }, false)
  remembered state (l, true) = (record { last = some state; firewall = l }, true)

  unfoldable pub incremental : State → State → List ℤ → Live → IptablesBackend × Bool
  unfolding full_apply
  incremental prev state uids l =
      let delta = build_set_delta prev state uids in
      let (l1, done) = ipset delta l in
      let healed = remembered state (full_apply state uids l1) in
      if length delta == 0
      then (record { last = some state; firewall = l }, true)
      else if done
      then (record { last = some state; firewall = l1 }, true)
      else healed

  unfoldable pub apply_from : Option State → State → Live → IptablesBackend × Bool
  unfolding incremental full_apply
  apply_from none state l = remembered state (full_apply state (sorted_uids state.per_user) l)
  apply_from (some prev) state l =
      let uids = sorted_uids state.per_user in
      let full = remembered state (full_apply state uids l) in
      let delta = incremental prev state uids l in
      if same_uids prev.per_user state.per_user then delta else full

  unfoldable pub apply : State → IptablesBackend → IptablesBackend × Bool
  unfolding apply_from
  apply state b = apply_from b.last state b.firewall

  -- Detach and remove the chain; the results of the commands are ignored.
  unfoldable pub remove_chain : Family → Live → Live
  remove_chain f l = (delete_chain f (flush_chain f (detach f l).0).0).0

  unfoldable pub list_ipsets : Live → Option (List Text)
  unfolding nonempty_lines
  list_ipsets l = elim (listing l) [
    | none ↦ none
    | some out ↦ some (nonempty_lines (split out 0x0a))
  ]

  unfoldable pub destroy_ours : List Text → Live → Live
  destroy_ours [] l = l
  destroy_ours (n ∷ names) l =
      let ours = destroy_ours names (destroy_set n l).0 in
      let other = destroy_ours names l in if has_prefix n (codes "webblk_") then ours else other

  unfoldable pub destroy_listed : Option (List Text) → Live → Live × Bool
  unfolding destroy_ours
  destroy_listed none l = (l, false)
  destroy_listed (some names) l = (destroy_ours names l, true)

  unfoldable pub teardown : IptablesBackend → IptablesBackend × Bool
  unfolding remove_chain list_ipsets destroy_listed
  teardown b =
      let l = remove_chain v6 (remove_chain v4 b.firewall) in
      let (l', done) = destroy_listed (list_ipsets l) l in
      (record { last = none; firewall = l' }, done)

  -- What the backend remembers is what the firewall enforces.
  abbrev pub Remembers : Option State → Firewall → Type 0
  Remembers none r = Unit
  Remembers (some s) r = Matches r s × IsMap s.per_user

  abbrev pub IsSound : IptablesBackend → Type 0
  IsSound b = Remembers b.last (view b.firewall)
