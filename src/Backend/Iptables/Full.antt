-- ===== src/Backend/Iptables/Full.antt =====
-- What a full apply of internal/backend/iptables.go leaves when it succeeds.
use request_blocker.Shared.{
  true, List, ◌≡◌, ◌∙◌, ap, arith, list_eq, nat_eq, Bool-cases, inl, inr, if◌then◌else◌,
}
use request_blocker.Text.{ℤ, int_eq}
use request_blocker.Backend.State.{Family, v4, v6, State, sorted_uids, contains-sorted_uids}
use request_blocker.Backend.Nft.Kernel.{family_eq}
use request_blocker.Backend.Iptables.Commands.{live, refresh_all_sets, chain_rules}
use request_blocker.Backend.Iptables.Tool.{Firewall, IptablesTool}
use request_blocker.Backend.Iptables.Payloads.{effects-refresh_all}
use request_blocker.Backend.Iptables.Matching.{Matches, family_eq_refl}
use request_blocker.Backend.Iptables.Defs.{rebuild_chain, full_apply}

module _ (tool : IptablesTool) where
  open tool use {
    Live, view, ipset, restore, jumps, insert_jump, ipset_done, restore_done, jumps_true,
    insert_done,
  }

  -- What a successful rebuild of one family's chain changes.
  record Chained (f : Family) (uids : List ℤ) (a b : Firewall) : Type 0 where
    member : b.member ≡ a.member
    chain : (g : Family) → b.chain g ≡ (if family_eq f g then chain_rules uids else a.chain g)
    here : b.jump f ≡ true
    others : (g : Family) → a.jump g ≡ true → b.jump g ≡ true

  rebuild_chain-Chained :
      (f : Family) (uids : List ℤ) (l : Live)
      → (rebuild_chain tool f uids l).1 ≡ true
      → Chained f uids (view l) (view (rebuild_chain tool f uids l).0)
  unfolding rebuild_chain
  rebuild_chain-Chained f uids l h = elim (Bool-cases (restore f (chain_rules uids) l).1) [
    | inl done ↦ elim (Bool-cases (jumps f (restore f (chain_rules uids) l).0)) [
      | inl there ↦
          rw (done, rebuild_chain)
            (rw there (restored done (jumps_true f (restore f (chain_rules uids) l).0 there)))
      | inr absent ↦
          rw (done, rebuild_chain)
            (rw absent (inserted done (rw absent at rw (done, rebuild_chain) at h)))
    ]
    | inr failed ↦ absurd (ground arith)
  ]
    where
      l1 : Live
      l1 = (restore f (chain_rules uids) l).0

      restored :
          (restore f (chain_rules uids) l).1 ≡ true
          → (view l1).jump f ≡ true
          → Chained f uids (view l) (view l1)
      restored done jump =
          let is = restore_done f (chain_rules uids) l done in
          record {
            member = ap (λ w. w.member) is;
            chain = λ g. ap (λ w. w.chain g) is;
            here = jump;
            others = λ g k. ap (λ w. w.jump g) is ∙ k;
          }

      inserted :
          (restore f (chain_rules uids) l).1 ≡ true
          → (insert_jump f l1).1 ≡ true
          → Chained f uids (view l) (view (insert_jump f l1).0)
      inserted done jump =
          let is = restore_done f (chain_rules uids) l done in
          let ins = insert_done f l1 jump in
          record {
            member = ap (λ w. w.member) ins ∙ ap (λ w. w.member) is;
            chain = λ g. ap (λ w. w.chain g) ins ∙ ap (λ w. w.chain g) is;
            here = ap (λ w. w.jump f) ins ∙ ground (arith, family_eq_refl f);
            others = λ g k. ap (λ w. w.jump g) ins ∙ ground (arith, ap (λ w. w.jump g) is);
          }

  pub full_apply-Matches :
      (s : State) (l : Live)
      → (full_apply tool s (sorted_uids s.per_user) l).1 ≡ true
      → Matches (view (full_apply tool s (sorted_uids s.per_user) l).0) s
  unfolding full_apply
  full_apply-Matches s l h = elim (Bool-cases (ipset (refresh_all_sets s uids) l).1) [
    | inl refreshed ↦ elim (Bool-cases (rebuild_chain tool v4 uids l1).1) [
      | inl done4 ↦
          rw (refreshed, full_apply)
            (rw done4 (settled refreshed done4 (rw done4 at rw (refreshed, full_apply) at h)))
      | inr failed4 ↦ absurd (ground arith)
    ]
    | inr stale ↦ absurd (ground arith)
  ]
    where
      uids : List ℤ
      uids = sorted_uids s.per_user

      l1 : Live
      l1 = (ipset (refresh_all_sets s uids) l).0

      l2 : Live
      l2 = (rebuild_chain tool v4 uids l1).0

      settled :
          (ipset (refresh_all_sets s uids) l).1 ≡ true
          → (rebuild_chain tool v4 uids l1).1 ≡ true
          → (rebuild_chain tool v6 uids l2).1 ≡ true
          → Matches (view (rebuild_chain tool v6 uids l2).0) s
      settled refreshed done4 done6 =
          let c4 = rebuild_chain-Chained v4 uids l1 done4 in
          let c6 = rebuild_chain-Chained v6 uids l2 done6 in
          let sets = ap (λ w. w.member) (ipset_done (refresh_all_sets s uids) l refreshed) in
          record {
            jump = λ f. jump_of c4 c6 f;
            rules = uids;
            chain = λ f. chain_of c4 c6 f;
            users = λ u. contains-sorted_uids s.per_user u;
            member = λ t x k.
                ap (λ m. m (live t) x) (c6.member ∙ c4.member ∙ sets)
                ∙ effects-refresh_all s uids (view l).member t x
                ∙ ground (arith, k);
          }
        where
          jump_of :
              Chained v4 uids (view l1) (view l2)
              → Chained v6 uids (view l2) (view (rebuild_chain tool v6 uids l2).0)
              → (f : Family) → (view (rebuild_chain tool v6 uids l2).0).jump f ≡ true
          jump_of c4 c6 v4 = c6.others v4 c4.here
          jump_of c4 c6 v6 = c6.here

          chain_of :
              Chained v4 uids (view l1) (view l2)
              → Chained v6 uids (view l2) (view (rebuild_chain tool v6 uids l2).0)
              → (f : Family) → (view (rebuild_chain tool v6 uids l2).0).chain f ≡ chain_rules uids
          chain_of c4 c6 v4 = unfold family_eq in (c6.chain v4 ∙ c4.chain v4)
          chain_of c4 c6 v6 = unfold family_eq in c6.chain v6
