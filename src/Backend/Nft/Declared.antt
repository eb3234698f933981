-- ===== src/Backend/Nft/Declared.antt =====
-- What nft demands of a script: a command names only what is there when its turn comes.
use request_blocker.Shared.{
  Bool, true, false, ◌||◌, ◌&&◌, List, [], ◌∷◌, ◌++◌, ◌≡◌, refl, arith, nat_eq, list_eq, ◌==◌,
}
use request_blocker.Text.{ℤ, int_eq}
use request_blocker.Backend.Nft.Commands.{
  SetName, global_set, uid_set, Command, add_table, delete_table, add_output_chain, add_set,
  add_uid_chain, add_uid_rule, add_global_rule, add_vmap, add_elements, delete_elements,
}
use request_blocker.Backend.Nft.Kernel.{set_eq}

-- The table, its chains and its sets, as far as they are there.
pub record Declared : Type 0 where
  pub table : Bool
  pub output : Bool
  pub chain : ℤ → Bool
  pub set : SetName → Bool

abbrev pub nothing : Declared
nothing = record { table = false; output = false; chain = λ u. false; set = λ s. false }

unfoldable pub declare : Command → Declared → Declared
unfolding set_eq
declare add_table d = record d { table = true }
declare delete_table d = nothing
declare add_output_chain d = record d { output = true }
declare (add_set s) d = record d { set = λ t. set_eq s t || d.set t }
declare (add_uid_chain uid) d = record d { chain = λ u. uid == u || d.chain u }
declare (add_uid_rule f uid) d = d
declare (add_global_rule f) d = d
declare (add_vmap uids) d = d
declare (add_elements s xs) d = d
declare (delete_elements s xs) d = d

-- Every uid of a list has its chain.
unfoldable pub all_chains : List ℤ → Declared → Bool
all_chains [] d = true
all_chains (u ∷ us) d = d.chain u && all_chains us d

unfoldable pub accepts : Command → Declared → Bool
unfolding all_chains
accepts add_table d = true
accepts delete_table d = d.table
accepts add_output_chain d = d.table
accepts (add_set s) d = d.table
accepts (add_uid_chain uid) d = d.table
accepts (add_uid_rule f uid) d = d.chain uid && d.set (uid_set f uid)
accepts (add_global_rule f) d = d.output && d.set (global_set f)
accepts (add_vmap uids) d = d.output && all_chains uids d
accepts (add_elements s xs) d = d.set s
accepts (delete_elements s xs) d = d.set s

unfoldable pub declares : List Command → Declared → Declared
unfolding declare
declares [] d = d
declares (c ∷ cs) d = declares cs (declare c d)

unfoldable pub accepted : List Command → Declared → Bool
unfolding accepts declare
accepted [] d = true
accepted (c ∷ cs) d = accepts c d && accepted cs (declare c d)

pub accepted-append :
    (cs ds : List Command) (d : Declared)
    → accepted (cs ++ ds) d ≡ (accepted cs d && accepted ds (declares cs d))
unfolding accepted declares
accepted-append [] ds d = refl
accepted-append (c ∷ cs) ds d = ground (arith, accepted-append cs ds (declare c d))

pub declares-append :
    (cs ds : List Command) (d : Declared) → declares (cs ++ ds) d ≡ declares ds (declares cs d)
unfolding declares
declares-append [] ds d = refl
declares-append (c ∷ cs) ds d = declares-append cs ds (declare c d)
