-- ===== src/Store/Disk.antt =====
-- The files of internal/store/store.go: `path`, `loadLocked`, `saveLocked`, `Mutate` and
-- `ListUserUIDs`, over the two directories of the store.
mod Directory
pub mod Paths
pub mod Save
pub mod Mutate
pub mod Users
pub mod Open
pub mod Tests
use request_blocker.Shared.{
  Bool, true, false, ◌||◌, ◌&&◌, not, Option, none, some, List, [], ◌∷◌, ◌++◌, list_eq, nat_eq, Map,
  lookup, insert, delete, sort, length, ◌==◌, is_some, Result, ok, err, if◌then◌else◌,
}
use request_blocker.Text.{Text, codes, ℤ, int_ord, itoa, atoi, has_suffix, trim_suffix}
use request_blocker.Store.Scope.{Scope}
use request_blocker.Store.BlockList
use request_blocker.Store.BlockList.{BlockList, sorted_unique}

-- What a file holds: nothing that can be read, no JSON, or the two fields of a blocklist, each
-- of which may be absent or null.
pub data Content : Type 0 where
  unreadable malformed : Content
  json : Option (List Text) → Option (List Text) → Content

pub data Node : Type 0 where
  directory : Node
  file : Content → Node

abbrev pub Directory : Type 0
Directory = Map Text Node

-- The root of the store, and its child `users`, if that is there.
pub record Disk : Type 0 where
  pub root : Directory
  pub users : Option Directory

-- The directory of a scope's file.
pub folder : Scope → Disk → Option Directory
folder s d = if s.global then some d.root else d.users

pub set_folder : Scope → Directory → Disk → Disk
set_folder s dir d = if s.global then record d { root = dir } else record d { users = some dir }

-- The last element of `path`.
pub file_name : Scope → Text
file_name s = if s.global then codes "global.json" else itoa s.uid ++ codes ".json"

pub node_at : Scope → Disk → Option Node
unfolding folder file_name
node_at s d = elim (folder s d) [ none ↦ none | some dir ↦ lookup (file_name s) dir ]

-- The errors of the store, by the words of their messages.
pub data StoreError : Type 0 where
  read parse temp_file write chmod close rename : Scope → StoreError
  read_users : StoreError

abbrev or_empty : Option (List Text) → List Text
or_empty none = []
or_empty (some xs) = xs

-- `os.ReadFile` and `json.Unmarshal`. A file that is not there is no error.
abbrev read_node : Scope → Option Node → Result StoreError BlockList
read_node s none = ok BlockList.empty
read_node s (some directory) = err (read s)
read_node s (some (file unreadable)) = err (read s)
read_node s (some (file malformed)) = err (parse s)
read_node s (some (file (json ds is))) = ok (record { domains = or_empty ds; ips = or_empty is })

unfoldable pub load : Scope → Disk → Result StoreError BlockList
unfolding node_at
load s d = read_node s (node_at s d)

-- How the operating system answers the calls of one `saveLocked`, and the random part of the
-- temporary file's name. Where `done_x` is false, the call `x` fails.
pub record Io : Type 0 where
  pub suffix : Text
  pub done_create : Bool
  pub done_write : Bool
  pub done_chmod : Bool
  pub done_close : Bool
  pub done_rename : Bool
  pub done_remove : Bool

pub tmp_name : Io → Text
tmp_name io = codes ".tmp-" ++ io.suffix

abbrev pub is_directory : Option Node → Bool
is_directory (some directory) = true
is_directory _ = false

-- The deferred `os.Remove` of the temporary file.
unfoldable pub removed_tmp : Io → Directory → Directory
unfolding tmp_name
removed_tmp io dir = if io.done_remove then delete (tmp_name io) dir else dir

-- The calls of `saveLocked` in one directory: `os.CreateTemp`, which makes a new file, `Write`,
-- `Chmod`, `Close` and `os.Rename`, and the deferred `os.Remove` of the temporary file, whose error
-- is ignored.
pub save_in : Io → Scope → Content → Directory → Directory × Option StoreError
unfolding tmp_name file_name removed_tmp
save_in io s content dir =
    let tmp = tmp_name io in
    let created = insert tmp (file malformed) dir in
    let written = insert tmp (file content) created in
    let renamed = insert (file_name s) (file content) (delete tmp written) in
    if not io.done_create || is_some (lookup tmp dir)
    then (dir, some (temp_file s))
    else if not io.done_write
    then (removed_tmp io created, some (write s))
    else if not io.done_chmod
    then (removed_tmp io written, some (chmod s))
    else if not io.done_close
    then (removed_tmp io written, some (close s))
    else if not io.done_rename || is_directory (lookup (file_name s) written)
    then (removed_tmp io written, some (rename s))
    else (removed_tmp io renamed, none)

-- What is written for a blocklist. `json.MarshalIndent` does not fail on lists of strings.
abbrev pub contents : BlockList → Content
contents bl = json (some (sorted_unique bl.domains)) (some (sorted_unique bl.ips))

unfoldable pub save : Io → Scope → BlockList → Disk → Disk × Option StoreError
unfolding folder set_folder save_in
save io s bl d = elim (folder s d) [
  | none ↦ (d, some (temp_file s))
  | some dir ↦ let (dir', e) = save_in io s (contents bl) dir in (set_folder s dir' d, e)
]

-- `Mutate`, for a function that changes the list and returns a value.
module _ {A : Type 0} where
  abbrev saved : Io → Scope → BlockList × A → Disk → Disk × Result StoreError A
  saved io s (bl, a) d =
      let (d', e) = save io s bl d in (d', elim e [ none ↦ ok a | some x ↦ err x ])

  abbrev mutated :
      Io → Scope → Disk → Result StoreError (BlockList × A) → Disk × Result StoreError A
  mutated io s d (err e) = (d, err e)
  mutated io s d (ok r) = saved io s r d

  abbrev change :
      (BlockList → Result StoreError (BlockList × A))
      → Result StoreError BlockList
      → Result StoreError (BlockList × A)
  change fn (err e) = err e
  change fn (ok bl) = fn bl

  unfoldable pub mutate :
      Io
      → Scope
      → (BlockList → Result StoreError (BlockList × A))
      → Disk
      → Disk × Result StoreError A
  mutate io s fn d = mutated io s d (change fn (load s d))

abbrev json_suffix : Text
json_suffix = codes ".json"

-- The uid that one directory entry stands for.
pub entry_uid : Text × Node → Option ℤ
entry_uid (name, directory) = none
entry_uid (name, file _) =
    if has_suffix name json_suffix then atoi (trim_suffix name json_suffix) else none

pub entry_uids : Directory → List ℤ
unfolding entry_uid
entry_uids [] = []
entry_uids (x ∷ xs) = elim (entry_uid x) [ none ↦ entry_uids xs | some uid ↦ uid ∷ entry_uids xs ]

-- `ListUserUIDs`; `readable` is whether `os.ReadDir` succeeds on a directory that is there.
unfoldable pub list_user_uids : Bool → Disk → Result StoreError (List ℤ)
unfolding entry_uids
list_user_uids readable d = elim d.users [
  | none ↦ ok []
  | some dir ↦ if readable then ok (sort (entry_uids dir)) else err read_users
]

abbrev pub default_dir : Text
default_dir = codes "/var/lib/webblock"

-- The base directory that `New` takes for an argument.
unfoldable pub base_dir : Text → Text
base_dir dir = if length dir == 0 then default_dir else dir

abbrev pub users_or_new : Option Directory → Directory
users_or_new none = []
users_or_new (some dir) = dir

-- `New`: `os.MkdirAll` makes the directory of the users where there is none, and may fail.
unfoldable pub new_store : Bool → Disk → Option Disk
new_store made d = if made then some (record d { users = some (users_or_new d.users) }) else none
