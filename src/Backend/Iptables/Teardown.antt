-- ===== src/Backend/Iptables/Teardown.antt =====
-- What is left after `Teardown` of internal/backend/iptables.go.
use request_blocker.Shared.{
  Bool, true, false, ◌&&◌, Option, none, some, List, [], ◌∷◌, ◌≡◌, ◌∙◌, refl, sym, ap, arith,
  list_eq, nat_eq, list_beq_iff, contains, contains-cons, contains-nil, Bool-cases, inl, inr,
  Option-cases, if◌then◌else◌,
}
use request_blocker.Text.{Text, codes, ℤ, split, trim_space_none, has_prefix}
use request_blocker.Backend.State.{Family, v4, v6}
use request_blocker.Backend.Nft.Kernel.{family_eq}
use request_blocker.Backend.Iptables.Matching.{family_eq_refl}
use request_blocker.Backend.Iptables.Commands.{Slot, slot_name}
use request_blocker.Backend.Iptables.Tool.{IptablesTool, drops, chain_drops}
use request_blocker.Backend.Iptables.Defs.{
  IptablesBackend, remove_chain, nonempty_lines, list_ipsets, destroy_ours, destroy_listed,
  teardown,
}
use request_blocker.Backend.Iptables.Names.{
  slot_name-NoSpace, slot_name-ours, slot_name-nonempty, contains-nonempty_lines,
}

module _ (tool : IptablesTool) where
  open tool use {
    Live, view, detach, flush_chain, delete_chain, listing, destroy_set, detach_fails, detach_done,
    flush_fails, flush_done, delete_fails, delete_done, listing_lists, destroy_fails, destroy_done,
  }

  -- The flush of a chain in the state where `Teardown` makes it.
  unfoldable pub flushed : Family → IptablesBackend tool → Bool
  flushed v4 b = (flush_chain v4 (detach v4 b.firewall).0).1
  flushed v6 b = (flush_chain v6 (detach v6 (remove_chain tool v4 b.firewall)).0).1

  -- A command that changes no chain when it succeeds, and nothing when it fails.
  same_chain :
      (g : Family) (l : Live) (r : Live × Bool)
      → (r.1 ≡ true → (view r.0).chain g ≡ (view l).chain g)
      → (r.1 ≡ false → view r.0 ≡ view l)
      → (view r.0).chain g ≡ (view l).chain g
  same_chain g l (l', true) done failed = done refl
  same_chain g l (l', false) done failed = ap (λ w. w.chain g) (failed refl)

  delete-chain : (f g : Family) (l : Live) → (view (delete_chain f l).0).chain g ≡ (view l).chain g
  delete-chain f g l =
      same_chain g l (delete_chain f l) (λ h. ap (λ w. w.chain g) (delete_done f l h))
        (delete_fails f l)

  remove_chain-own :
      (f : Family) (l : Live)
      → (flush_chain f (detach f l).0).1 ≡ true
      → (view (remove_chain tool f l)).chain f ≡ []
  unfolding remove_chain
  remove_chain-own f l done =
      delete-chain f f (flush_chain f (detach f l).0).0
      ∙ ap (λ w. w.chain f) (flush_done f (detach f l).0 done)
      ∙ rw (family_eq_refl f) refl

  remove_chain-other :
      (f g : Family) (l : Live)
      → family_eq f g ≡ false
      → (view (remove_chain tool f l)).chain g ≡ (view l).chain g
  unfolding remove_chain
  remove_chain-other f g l other =
      let l1 = (detach f l).0 in
      delete-chain f g (flush_chain f l1).0
      ∙ same_chain g l1 (flush_chain f l1)
          (λ h. ap (λ w. w.chain g) (flush_done f l1 h) ∙ rw other refl) (flush_fails f l1)
      ∙ same_chain g l (detach f l) (λ h. ap (λ c. c g) (detach_done f l h)) (detach_fails f l)

  destroy_ours-chain :
      (g : Family) (names : List Text) (l : Live)
      → (view (destroy_ours tool names l)).chain g ≡ (view l).chain g
  unfolding destroy_ours
  destroy_ours-chain g [] l = refl
  destroy_ours-chain g (n ∷ names) l = elim (Bool-cases (has_prefix n (codes "webblk_"))) [
    | inl ours ↦ rw ours (
        destroy_ours-chain g names (destroy_set n l).0
        ∙ same_chain g l (destroy_set n l) (λ h. ap (λ w. w.chain g) (destroy_done n l h))
            (destroy_fails n l))
    | inr other ↦ rw other (destroy_ours-chain g names l)
  ]

  -- The firewall when the chains are gone, before the sets are destroyed.
  abbrev pub detached : IptablesBackend tool → Live
  detached b = remove_chain tool v6 (remove_chain tool v4 b.firewall)

  detached-chain :
      (b : IptablesBackend tool) (f : Family)
      → flushed f b ≡ true
      → (view (detached b)).chain f ≡ []
  unfolding flushed family_eq
  detached-chain b v4 done =
      remove_chain-other v6 v4 (remove_chain tool v4 b.firewall) refl
      ∙ remove_chain-own v4 b.firewall done
  detached-chain b v6 done = remove_chain-own v6 (remove_chain tool v4 b.firewall) done

  teardown-chain :
      (b : IptablesBackend tool) (f : Family)
      → flushed f b ≡ true
      → (view (teardown tool b).0.firewall).chain f ≡ []
  unfolding teardown destroy_listed
  teardown-chain b f done = elim (Option-cases (list_ipsets tool (detached b))) [
    | inl failed ↦ rw failed (detached-chain b f done)
    | inr (names, listed) ↦
        rw listed (destroy_ours-chain f names (detached b) ∙ detached-chain b f done)
  ]

  -- Every `ipset destroy` of the loop succeeds.
  unfoldable pub destroys_all : List Text → Live → Bool
  destroys_all [] l = true
  destroys_all (n ∷ names) l =
      let ours = (destroy_set n l).1 && destroys_all names (destroy_set n l).0 in
      let other = destroys_all names l in if has_prefix n (codes "webblk_") then ours else other

  -- What is still in a set of the program after the loop was there before, in a set that was
  -- not listed.
  destroy_ours-member :
      (names : List Text) (l : Live) (s : Slot) (x : Text)
      → has_prefix (slot_name s) (codes "webblk_") ≡ true
      → destroys_all names l ≡ true
      → (view (destroy_ours tool names l)).member s x ≡ true
      → ((view l).member s x ≡ true) × (contains names (slot_name s) ≡ false)
  unfolding destroy_ours destroys_all
  destroy_ours-member [] l s x p all there = (there, contains-nil (slot_name s))
  destroy_ours-member (n ∷ names) l s x p all there =
      elim (Bool-cases (has_prefix n (codes "webblk_"))) [
        | inl ours ↦
            let done : (destroy_set n l).1 ≡ true = ground (arith, ours) in
            let (before, unlisted) =
              destroy_ours-member names (destroy_set n l).0 s x p (ground (arith, ours))
                (rw ours at there) in
            let kept = sym (ap (λ w. w.member s x) (destroy_done n l done)) ∙ before in
            (
              ground (arith, kept),
              ground (
                arith,
                kept,
                unlisted,
                contains-cons n names (slot_name s),
                list_beq_iff n (slot_name s),
                list_beq_iff (slot_name s) n,
              ),
            )
        | inr other ↦
            let (before, unlisted) =
              destroy_ours-member names l s x p (rw other at all) (rw other at there) in
            (
              before,
              ground (
                arith,
                unlisted,
                contains-cons n names (slot_name s),
                list_beq_iff n (slot_name s),
                other,
                p,
              ),
            )
      ]

  abbrev pub all_destroyed : Option (List Text) → Live → Bool
  all_destroyed none l = true
  all_destroyed (some names) l = destroys_all names l

  listed_gone :
      (l : Live) (out : Text) (s : Slot) (x : Text)
      → listing l ≡ some out
      → destroys_all (nonempty_lines (split out 0x0a)) l ≡ true
      → (view (destroy_ours tool (nonempty_lines (split out 0x0a)) l)).member s x ≡ false
  listed_gone l out s x listed all =
      let names = nonempty_lines (split out 0x0a) in
      elim (Bool-cases ((view (destroy_ours tool names l)).member s x)) [
        | inr gone ↦ gone
        | inl there ↦
            let (before, unlisted) = destroy_ours-member names l s x (slot_name-ours s) all there in
            let found =
              contains-nonempty_lines (split out 0x0a) (slot_name s)
                (trim_space_none (slot_name s) (slot_name-NoSpace s)) (slot_name-nonempty s)
                (listing_lists l out listed s x before) in
            absurd (ground (arith, found, unlisted))
      ]

  destroy_listed-member :
      (l : Live) (s : Slot) (x : Text)
      → (destroy_listed tool (list_ipsets tool l) l).1 ≡ true
      → all_destroyed (list_ipsets tool l) l ≡ true
      → (view (destroy_listed tool (list_ipsets tool l) l).0).member s x ≡ false
  unfolding destroy_listed list_ipsets
  destroy_listed-member l s x done all = elim (Option-cases (listing l)) [
    | inl failed ↦ absurd (ground (arith, rw (failed, destroy_listed, list_ipsets) at done))
    | inr (out, listed) ↦
        rw (listed, destroy_listed, list_ipsets)
          (listed_gone l out s x listed (rw (listed, list_ipsets) at all))
  ]

  -- `Teardown` forgets what was applied, and after it the firewall drops nothing of a family whose
  -- chain could be flushed, whatever else failed.
  pub teardown-drops :
      (b : IptablesBackend tool) (f : Family) (u : ℤ) (x : Text)
      → flushed f b ≡ true
      → ((teardown tool b).0.last ≡ none)
        × (drops (view (teardown tool b).0.firewall) u f x ≡ false)
  unfolding teardown drops chain_drops
  teardown-drops b f u x done = (refl, ground (arith, teardown-chain b f done))

  -- If `Teardown` reports success and every set that it tried to destroy could be destroyed, no
  -- set of the program has an element left.
  pub teardown-member :
      (b : IptablesBackend tool) (s : Slot) (x : Text)
      → (teardown tool b).1 ≡ true
      → all_destroyed (list_ipsets tool (detached b)) (detached b) ≡ true
      → (view (teardown tool b).0.firewall).member s x ≡ false
  unfolding teardown
  teardown-member b s x listed all = destroy_listed-member (detached b) s x listed all
