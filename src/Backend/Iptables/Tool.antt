-- ===== src/Backend/Iptables/Tool.antt =====
-- What the program relies on in ipset, iptables and the kernel: the documented effect of each
-- command, and which packets the rules drop.
use request_blocker.Shared.{
  Bool, true, false, Option, some, contains, ◌||◌, ◌&&◌, not, List, [], ◌∷◌, ◌++◌, ◌≡◌, refl,
  list_eq, nat_eq, ◌==◌, bool_eq, if◌then◌else◌,
}
use request_blocker.Text.{Text, ℤ, int_eq, split}
use request_blocker.Backend.State.{Family}
use request_blocker.Backend.Nft.Commands.{global_set, uid_set}
use request_blocker.Backend.Nft.Kernel.{family_eq, set_eq}
use request_blocker.Backend.Iptables.Commands.{
  Slot, slot_name, live, SetCommand, create, flush, destroy, add, del, swap, Rule, drop_global,
  drop_uid,
}

-- The elements of the sets. A set that is not there has none.
abbrev pub Members : Type 0
Members = Slot → Text → Bool

abbrev pub slot_eq : Slot → Slot → Bool
slot_eq s t = set_eq s.set t.set && s.tmp == t.tmp

unfoldable pub effect : SetCommand → Members → Members
effect (create s) m = m
effect (flush s) m = λ t x. not (slot_eq s t) && m t x
effect (destroy s) m = λ t x. not (slot_eq s t) && m t x
effect (add s y) m = λ t x. (slot_eq s t && y == x) || m t x
effect (del s y) m = λ t x. not (slot_eq s t && y == x) && m t x
effect (swap a b) m = λ t x. if slot_eq a t then m b x else if slot_eq b t then m a x else m t x

unfoldable pub effects : List SetCommand → Members → Members
effects [] m = m
effects (c ∷ cs) m = effects cs (effect c m)

pub effects-append :
    (cs ds : List SetCommand) (m : Members) → effects (cs ++ ds) m ≡ effects ds (effects cs m)
unfolding effects
effects-append [] ds m = refl
effects-append (c ∷ cs) ds m = effects-append cs ds (effect c m)

-- The sets, the program's chain of each family and whether OUTPUT jumps to it.
pub record Firewall : Type 0 where
  pub member : Members
  pub chain : Family → List Rule
  pub jump : Family → Bool

unfoldable pub rule_drops : Members → ℤ → Family → Text → Rule → Bool
rule_drops m uid f x drop_global = m (live (global_set f)) x
rule_drops m uid f x (drop_uid u) = u == uid && m (live (uid_set f u)) x

unfoldable pub chain_drops : Members → ℤ → Family → Text → List Rule → Bool
unfolding rule_drops
chain_drops m uid f x [] = false
chain_drops m uid f x (r ∷ rs) = rule_drops m uid f x r || chain_drops m uid f x rs

unfoldable pub drops : Firewall → ℤ → Family → Text → Bool
unfolding chain_drops
drops fw uid f x = fw.jump f && chain_drops fw.member uid f x (fw.chain f)

-- The commands. After a failure of those of `Apply` nothing is known of the firewall; those of
-- `Teardown` change one thing or nothing. `listing` is what `ipset list -n` prints: the name of
-- each set in a line of its own.
pub record IptablesTool : Type 1 where
  pub Live : Type 0
  pub view : Live → Firewall
  pub ipset : List SetCommand → Live → Live × Bool
  pub restore : Family → List Rule → Live → Live × Bool
  pub jumps : Family → Live → Bool
  pub insert_jump : Family → Live → Live × Bool
  -- `-D OUTPUT -j WEBBLOCK`, `-F WEBBLOCK`, `-X WEBBLOCK` and `ipset destroy`
  pub detach : Family → Live → Live × Bool
  pub flush_chain : Family → Live → Live × Bool
  pub delete_chain : Family → Live → Live × Bool
  pub listing : Live → Option Text
  pub destroy_set : Text → Live → Live × Bool
  pub ipset_done :
      (cs : List SetCommand) (l : Live)
      → (ipset cs l).1 ≡ true
      → view (ipset cs l).0 ≡ record (view l) { member = effects cs (view l).member }
  pub restore_done :
      (f : Family) (rs : List Rule) (l : Live)
      → (restore f rs l).1 ≡ true
      → view (restore f rs l).0
        ≡ record (view l) { chain = λ g. if family_eq f g then rs else (view l).chain g }
  pub jumps_true : (f : Family) (l : Live) → jumps f l ≡ true → (view l).jump f ≡ true
  pub insert_done :
      (f : Family) (l : Live)
      → (insert_jump f l).1 ≡ true
      → view (insert_jump f l).0 ≡ record (view l) { jump = λ g. family_eq f g || (view l).jump g }
  pub detach_fails : (f : Family) (l : Live) → (detach f l).1 ≡ false → view (detach f l).0 ≡ view l
  pub detach_done :
      (f : Family) (l : Live) → (detach f l).1 ≡ true → (view (detach f l).0).chain ≡ (view l).chain
  pub flush_fails :
      (f : Family) (l : Live) → (flush_chain f l).1 ≡ false → view (flush_chain f l).0 ≡ view l
  pub flush_done :
      (f : Family) (l : Live)
      → (flush_chain f l).1 ≡ true
      → view (flush_chain f l).0
        ≡ record (view l) { chain = λ g. if family_eq f g then [] else (view l).chain g }
  pub delete_fails :
      (f : Family) (l : Live) → (delete_chain f l).1 ≡ false → view (delete_chain f l).0 ≡ view l
  -- only an empty chain can be deleted
  pub delete_done :
      (f : Family) (l : Live) → (delete_chain f l).1 ≡ true → view (delete_chain f l).0 ≡ view l
  pub listing_lists :
      (l : Live) (out : Text)
      → listing l ≡ some out
      → (s : Slot) (x : Text) → (view l).member s x ≡ true
      → contains (split out 0x0a) (slot_name s) ≡ true
  pub destroy_fails :
      (n : Text) (l : Live) → (destroy_set n l).1 ≡ false → view (destroy_set n l).0 ≡ view l
  pub destroy_done :
      (n : Text) (l : Live)
      → (destroy_set n l).1 ≡ true
      → view (destroy_set n l).0
        ≡ record (view l) { member = λ t x. not (slot_name t == n) && (view l).member t x }
