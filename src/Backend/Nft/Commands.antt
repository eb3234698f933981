-- ===== src/Backend/Nft/Commands.antt =====
-- The scripts of internal/backend/nft.go: `buildScript`, `buildDelta`, `writeElements` and
-- `writeElementDelta`, as lists of commands, and the line of text that each command is.
use request_blocker.Shared.{List, [], ◌∷◌, ◌++◌, map, nat_eq, Map}
use request_blocker.Text.{Text, codes, join, ℤ, itoa}
use request_blocker.Backend.State.{
  Family, v4, v6, IpSet, State, user_set, sorted_uids, diff_strings,
}

pub data SetName : Type 0 where
  global_set : Family → SetName
  uid_set : Family → ℤ → SetName

pub data Command : Type 0 where
  add_table delete_table add_output_chain : Command
  add_set : SetName → Command
  add_uid_chain : ℤ → Command
  add_uid_rule : Family → ℤ → Command
  add_global_rule : Family → Command
  add_vmap : List ℤ → Command
  add_elements delete_elements : SetName → List Text → Command

unfoldable pub uid_sets : List ℤ → List Command
uid_sets [] = []
uid_sets (uid ∷ uids) = add_set (uid_set v4 uid) ∷ add_set (uid_set v6 uid) ∷ uid_sets uids

unfoldable pub uid_chains : List ℤ → List Command
uid_chains [] = []
uid_chains (uid ∷ uids) =
    add_uid_chain uid ∷ add_uid_rule v4 uid ∷ add_uid_rule v6 uid ∷ uid_chains uids

unfoldable pub vmap_rule : List ℤ → List Command
vmap_rule [] = []
vmap_rule (uid ∷ uids) = add_vmap (uid ∷ uids) ∷ []

unfoldable pub write_elements : SetName → List Text → List Command
write_elements set [] = []
write_elements set (x ∷ xs) = add_elements set (x ∷ xs) ∷ []

unfoldable pub user_elements : ℤ → IpSet → List Command
user_elements uid set =
    write_elements (uid_set v4 uid) set.v4 ++ write_elements (uid_set v6 uid) set.v6

unfoldable pub uid_elements : List ℤ → Map ℤ IpSet → List Command
unfolding write_elements user_elements
uid_elements [] m = []
uid_elements (uid ∷ uids) m = user_elements uid (user_set uid m) ++ uid_elements uids m

unfoldable pub build_script : State → List Command
unfolding uid_sets uid_chains vmap_rule uid_elements
build_script state =
    let uids = sorted_uids state.per_user in
    add_table
    ∷ delete_table
    ∷ add_table
    ∷ add_set (global_set v4)
    ∷ add_set (global_set v6)
    ∷ (uid_sets uids
        ++ (add_output_chain
            ∷ (uid_chains uids
                ++ (add_global_rule v4
                    ∷ add_global_rule v6
                    ∷ (vmap_rule uids
                        ++ (write_elements (global_set v4) state.global.v4
                            ++ (write_elements (global_set v6) state.global.v6
                                ++ uid_elements uids state.per_user)))))))

unfoldable pub delete_some : SetName → List Text → List Command
delete_some set [] = []
delete_some set (x ∷ xs) = delete_elements set (x ∷ xs) ∷ []

unfoldable pub write_element_delta : SetName → List Text → List Text → List Command
unfolding write_elements delete_some
write_element_delta set prev next =
    let (added, removed) = diff_strings prev next in
    write_elements set added ++ delete_some set removed

unfoldable pub user_delta : ℤ → IpSet → IpSet → List Command
user_delta uid p n =
    write_element_delta (uid_set v4 uid) p.v4 n.v4 ++ write_element_delta (uid_set v6 uid) p.v6 n.v6

unfoldable pub uid_deltas : List ℤ → Map ℤ IpSet → Map ℤ IpSet → List Command
unfolding write_element_delta user_delta
uid_deltas [] p n = []
uid_deltas (uid ∷ uids) p n =
    user_delta uid (user_set uid p) (user_set uid n) ++ uid_deltas uids p n

unfoldable pub build_delta : State → State → List Command
unfolding uid_deltas
build_delta prev next =
    write_element_delta (global_set v4) prev.global.v4 next.global.v4
    ++ (write_element_delta (global_set v6) prev.global.v6 next.global.v6
        ++ uid_deltas (sorted_uids next.per_user) prev.per_user next.per_user)

nft_table : Text
nft_table = codes "inet webblock"

family_digit : Family → Text
family_digit v4 = codes "4"
family_digit v6 = codes "6"

pub set_text : SetName → Text
unfolding family_digit
set_text (global_set f) = codes "blocked_v" ++ family_digit f ++ codes "_global"
set_text (uid_set f uid) = codes "blocked_v" ++ family_digit f ++ codes "_uid_" ++ itoa uid

family_of : SetName → Family
family_of (global_set f) = f
family_of (uid_set f uid) = f

protocol : Family → Text
protocol v4 = codes "ip"
protocol v6 = codes "ip6"

vmap_entry : ℤ → Text
vmap_entry uid = itoa uid ++ codes " : jump uid_" ++ itoa uid

-- The line that is written for a command.
unfoldable pub render : Command → Text
unfolding nft_table set_text family_of protocol vmap_entry
render add_table = codes "add table " ++ nft_table ++ codes "\n"
render delete_table = codes "delete table " ++ nft_table ++ codes "\n"
render add_output_chain =
    codes "add chain "
    ++ nft_table
    ++ codes " output { type filter hook output priority 0; policy accept; }\n"
render (add_set s) =
    codes "add set "
    ++ nft_table
    ++ codes " "
    ++ set_text s
    ++ codes " { type ipv"
    ++ family_digit (family_of s)
    ++ codes "_addr; }\n"
render (add_uid_chain uid) =
    codes "add chain " ++ nft_table ++ codes " uid_" ++ itoa uid ++ codes "\n"
render (add_uid_rule f uid) =
    codes "add rule "
    ++ nft_table
    ++ codes " uid_"
    ++ itoa uid
    ++ codes " "
    ++ protocol f
    ++ codes " daddr @"
    ++ set_text (uid_set f uid)
    ++ codes " drop\n"
render (add_global_rule f) =
    codes "add rule "
    ++ nft_table
    ++ codes " output "
    ++ protocol f
    ++ codes " daddr @"
    ++ set_text (global_set f)
    ++ codes " drop\n"
render (add_vmap uids) =
    codes "add rule "
    ++ nft_table
    ++ codes " output meta skuid vmap { "
    ++ join (map vmap_entry uids) (codes ", ")
    ++ codes " }\n"
render (add_elements s xs) =
    codes "add element "
    ++ nft_table
    ++ codes " "
    ++ set_text s
    ++ codes " { "
    ++ join xs (codes ", ")
    ++ codes " }\n"
render (delete_elements s xs) =
    codes "delete element "
    ++ nft_table
    ++ codes " "
    ++ set_text s
    ++ codes " { "
    ++ join xs (codes ", ")
    ++ codes " }\n"

-- The script as `nft -f -` reads it.
unfoldable pub script_text : List Command → Text
unfolding render
script_text [] = []
script_text (c ∷ cs) = render c ++ script_text cs
