-- ===== src/Backend/Iptables/Commands.antt =====
-- The payloads of internal/backend/iptables.go: `buildSetDelta`, `refreshAllSets` and the rules of
-- `rebuildChain`, as lists of commands, and the line of text that each is.
use request_blocker.Shared.{Bool, true, false, List, [], ◌∷◌, ◌++◌, Map, if◌then◌else◌}
use request_blocker.Text.{Text, codes, ℤ, itoa}
use request_blocker.Backend.State.{Family, v4, v6, IpSet, State, user_set, diff_strings}
use request_blocker.Backend.Nft.Commands.{SetName, global_set, uid_set}

-- A set, or its temporary twin, whose name ends in `_t`.
pub record Slot : Type 0 where
  pub set : SetName
  pub tmp : Bool

abbrev pub live : SetName → Slot
live s = record { set = s; tmp = false }

abbrev pub twin : SetName → Slot
twin s = record { set = s; tmp = true }

pub data SetCommand : Type 0 where
  create flush destroy : Slot → SetCommand
  add del : Slot → Text → SetCommand
  swap : Slot → Slot → SetCommand

unfoldable pub adds : Slot → List Text → List SetCommand
adds s [] = []
adds s (x ∷ xs) = add s x ∷ adds s xs

unfoldable pub dels : Slot → List Text → List SetCommand
dels s [] = []
dels s (x ∷ xs) = del s x ∷ dels s xs

unfoldable pub write_set_elem_delta : SetName → List Text → List Text → List SetCommand
unfolding adds dels
write_set_elem_delta s prev next =
    let (added, removed) = diff_strings prev next in adds (live s) added ++ dels (live s) removed

unfoldable pub user_set_deltas : List ℤ → Map ℤ IpSet → Map ℤ IpSet → List SetCommand
unfolding write_set_elem_delta
user_set_deltas [] p n = []
user_set_deltas (uid ∷ uids) p n =
    write_set_elem_delta (uid_set v4 uid) (user_set uid p).v4 (user_set uid n).v4
    ++ (write_set_elem_delta (uid_set v6 uid) (user_set uid p).v6 (user_set uid n).v6
        ++ user_set_deltas uids p n)

unfoldable pub build_set_delta : State → State → List ℤ → List SetCommand
unfolding user_set_deltas
build_set_delta prev next uids =
    write_set_elem_delta (global_set v4) prev.global.v4 next.global.v4
    ++ (write_set_elem_delta (global_set v6) prev.global.v6 next.global.v6
        ++ user_set_deltas uids prev.per_user next.per_user)

unfoldable pub write_set_refresh : SetName → List Text → List SetCommand
unfolding adds
write_set_refresh s addrs =
    create (live s)
    ∷ create (twin s)
    ∷ flush (twin s)
    ∷ (adds (twin s) addrs ++ (swap (live s) (twin s) ∷ destroy (twin s) ∷ []))

unfoldable pub user_refreshes : List ℤ → Map ℤ IpSet → List SetCommand
unfolding write_set_refresh
user_refreshes [] m = []
user_refreshes (uid ∷ uids) m =
    write_set_refresh (uid_set v4 uid) (user_set uid m).v4
    ++ (write_set_refresh (uid_set v6 uid) (user_set uid m).v6 ++ user_refreshes uids m)

unfoldable pub refresh_all_sets : State → List ℤ → List SetCommand
unfolding user_refreshes
refresh_all_sets state uids =
    write_set_refresh (global_set v4) state.global.v4
    ++ (write_set_refresh (global_set v6) state.global.v6 ++ user_refreshes uids state.per_user)

-- The rules that are appended to the flushed chain of a family.
pub data Rule : Type 0 where
  drop_global : Rule
  drop_uid : ℤ → Rule

unfoldable pub user_rules : List ℤ → List Rule
user_rules [] = []
user_rules (uid ∷ uids) = drop_uid uid ∷ user_rules uids

unfoldable pub chain_rules : List ℤ → List Rule
unfolding user_rules
chain_rules uids = drop_global ∷ user_rules uids

unfoldable pub suffix : Family → Text
suffix v4 = codes "4"
suffix v6 = codes "6"

ipset_family : Family → Text
ipset_family v4 = codes "inet"
ipset_family v6 = codes "inet6"

family_of : SetName → Family
family_of (global_set f) = f
family_of (uid_set f uid) = f

unfoldable pub set_name : SetName → Text
unfolding suffix
set_name (global_set f) = codes "webblk_g_" ++ suffix f
set_name (uid_set f uid) = codes "webblk_u" ++ itoa uid ++ codes "_" ++ suffix f

unfoldable pub slot_name : Slot → Text
unfolding set_name
slot_name s = set_name s.set ++ (if s.tmp then codes "_t" else [])

unfoldable pub render : SetCommand → Text
unfolding slot_name ipset_family family_of
render (create s) =
    codes "create "
    ++ slot_name s
    ++ codes " hash:ip family "
    ++ ipset_family (family_of s.set)
    ++ codes " -exist\n"
render (flush s) = codes "flush " ++ slot_name s ++ codes "\n"
render (destroy s) = codes "destroy " ++ slot_name s ++ codes "\n"
render (add s x) = codes "add " ++ slot_name s ++ codes " " ++ x ++ codes "\n"
render (del s x) = codes "del " ++ slot_name s ++ codes " " ++ x ++ codes "\n"
render (swap s t) = codes "swap " ++ slot_name s ++ codes " " ++ slot_name t ++ codes "\n"

unfoldable pub payload : List SetCommand → Text
unfolding render
payload [] = []
payload (c ∷ cs) = render c ++ payload cs

rule_text : Family → Rule → Text
unfolding set_name
rule_text f drop_global =
    codes "-A WEBBLOCK -m set --match-set " ++ set_name (global_set f) ++ codes " dst -j DROP\n"
rule_text f (drop_uid uid) =
    codes "-A WEBBLOCK -m owner --uid-owner "
    ++ itoa uid
    ++ codes " -m set --match-set "
    ++ set_name (uid_set f uid)
    ++ codes " dst -j DROP\n"

rule_texts : Family → List Rule → Text
unfolding rule_text
rule_texts f [] = codes "COMMIT\n"
rule_texts f (r ∷ rs) = rule_text f r ++ rule_texts f rs

-- What `iptables-restore --noflush` reads.
unfoldable pub chain_payload : Family → List Rule → Text
unfolding rule_texts
chain_payload f rs = codes "*filter\n:WEBBLOCK - [0:0]\n-F WEBBLOCK\n" ++ rule_texts f rs
