-- ===== src/Backend/Nft/Kernel.antt =====
-- What the program relies on in `nft` and the kernel: the documented effect of each command on a
-- ruleset, that a script is one transaction, and which packets the rules drop.
use request_blocker.Shared.{
  Bool, true, false, ◌||◌, ◌&&◌, not, List, [], ◌∷◌, ◌++◌, ◌≡◌, refl, nat_eq, list_eq, ◌==◌,
  contains,
}
use request_blocker.Text.{Text, ℤ, int_eq}
use request_blocker.Backend.State.{Family, v4, v6}
use request_blocker.Backend.Nft.Commands.{
  SetName, global_set, uid_set, Command, add_table, delete_table, add_output_chain, add_set,
  add_uid_chain, add_uid_rule, add_global_rule, add_vmap, add_elements, delete_elements,
}

unfoldable pub family_eq : Family → Family → Bool
family_eq v4 v4 = true
family_eq v6 v6 = true
family_eq _ _ = false

unfoldable pub set_eq : SetName → SetName → Bool
unfolding family_eq
set_eq (global_set f) (global_set g) = family_eq f g
set_eq (uid_set f u) (uid_set g v) = family_eq f g && u == v
set_eq _ _ = false

-- The table of the program: whether its output chain is hooked, which rules stand in the chains,
-- which uids the verdict map sends to their chain, and the elements of the sets.
pub record Ruleset : Type 0 where
  pub hooked : Bool
  pub global_rule : Family → Bool
  pub uid_rule : Family → ℤ → Bool
  pub vmap : ℤ → Bool
  pub member : SetName → Text → Bool

abbrev pub no_table : Ruleset
no_table = record {
  hooked = false;
  global_rule = λ f. false;
  uid_rule = λ f u. false;
  vmap = λ u. false;
  member = λ s x. false;
}

unfoldable pub effect : Command → Ruleset → Ruleset
unfolding set_eq
effect add_table r = r
effect delete_table r = no_table
effect add_output_chain r = record r { hooked = true }
effect (add_set s) r = r
effect (add_uid_chain uid) r = r
effect (add_uid_rule f uid) r = record r {
  uid_rule = λ g u. (family_eq f g && uid == u) || r.uid_rule g u;
}
effect (add_global_rule f) r = record r { global_rule = λ g. family_eq f g || r.global_rule g }
effect (add_vmap uids) r = record r { vmap = λ u. contains uids u || r.vmap u }
effect (add_elements s xs) r = record r {
  member = λ t x. (set_eq s t && contains xs x) || r.member t x;
}
effect (delete_elements s xs) r = record r {
  member = λ t x. not (set_eq s t && contains xs x) && r.member t x;
}

unfoldable pub effects : List Command → Ruleset → Ruleset
effects [] r = r
effects (c ∷ cs) r = effects cs (effect c r)

pub effects-append :
    (cs ds : List Command) (r : Ruleset) → effects (cs ++ ds) r ≡ effects ds (effects cs r)
unfolding effects
effects-append [] ds r = refl
effects-append (c ∷ cs) ds r = effects-append cs ds (effect c r)

-- The output chain tries the global rules, then jumps to the owner's chain.
abbrev pub drops : Ruleset → ℤ → Family → Text → Bool
drops r uid f x =
    r.hooked
    && ((r.global_rule f && r.member (global_set f) x)
        || (r.vmap uid && (r.uid_rule f uid && r.member (uid_set f uid) x)))

-- `runNft` on the text of a script: either the whole script takes effect, or it fails and
-- nothing changes.
pub record NftTool : Type 1 where
  pub Live : Type 0
  pub view : Live → Ruleset
  pub run : List Command → Live → Live × Bool
  pub run_fails : (cs : List Command) (l : Live) → (run cs l).1 ≡ false → view (run cs l).0 ≡ view l
  pub run_done :
      (cs : List Command) (l : Live) → (run cs l).1 ≡ true → view (run cs l).0 ≡ effects cs (view l)
