-- ===== src/Store/Disk/Save.antt =====
-- `saveLocked` and `Load` together: what is saved is loaded, and what a failed save leaves.
use request_blocker.Shared.{
  Bool, ℕ, zero, suc, ◌-◌, ◌++◌, length, ◌∙◌, refl, sym, ap, subst, Bool-cases, ◌⊎◌, ◌==◌, ◌∷◌, [],
  list_beq_iff, false, none, some, ◌≡◌, arith, list_eq, nat_eq, lookup, insert, lookup-insert, ok,
  if◌then◌else◌, Option-cases, inl, inr,
}
use request_blocker.Text.{
  IsInt64, Text, codes, has_suffix, trim_suffix, take, atoi, read_number, read_digits,
}
use request_blocker.Store.Scope.{Scope}
use request_blocker.Store.BlockList.{BlockList, sorted_unique}
use request_blocker.Store.Disk.{
  Io, Disk, Directory, Node, file, StoreError, folder, set_folder, file_name, node_at, load,
  contents, save, save_in, is_directory, directory, Content, tmp_name, json_suffix, entry_uid,
  entry_uids, list_user_uids,
}
use request_blocker.Store.Disk.Paths.{same_scope, tmp_name-ne-file_name, file_name-same}
use request_blocker.Store.Disk.Directory.{Left, save_in-fails, save_in-done}

set_folder_self :
    (s : Scope) (d : Disk) (dir : Directory) → folder s d ≡ some dir → set_folder s dir d ≡ d
unfolding folder set_folder
set_folder_self s d dir h = ground arith

-- The saved list: both fields sorted and without repetition.
abbrev pub canonical : BlockList → BlockList
canonical bl = record { domains = sorted_unique bl.domains; ips = sorted_unique bl.ips }

-- No uid starts with a dot, cut wherever.
atoi_dot : (n : ℕ) (t : Text) → atoi (take n (b'.' ∷ t)) ≡ none
unfolding take atoi read_number read_digits
atoi_dot zero t = refl
atoi_dot (suc n) t = refl

tmp_entry : (io : Io) (x : Node) → entry_uid (tmp_name io, x) ≡ none
unfolding entry_uid tmp_name trim_suffix
tmp_entry io directory = refl
tmp_entry io (file c) = elim (Bool-cases (has_suffix (tmp_name io) json_suffix)) [
  | inl ends ↦
      rw ends (atoi_dot (length (tmp_name io) - length json_suffix) (codes "tmp-" ++ io.suffix))
  | inr other ↦ rw other refl
]

entry_uids-tmp :
    (io : Io) (x : Node) (dir : Directory)
    → entry_uids (insert (tmp_name io) x dir) ≡ entry_uids dir
unfolding entry_uids insert
entry_uids-tmp io x [] = rw (tmp_entry io x, entry_uids) refl
entry_uids-tmp io x ((name, y) ∷ dir) = elim (Bool-cases (name == tmp_name io)) [
  | inl same ↦ ground (
    arith,
    tmp_entry io x,
    tmp_entry io y,
    (list_beq_iff name (tmp_name io)).0 same,
    entry_uids-tmp io x dir,
  )
  | inr other ↦ ground (arith, other, entry_uids-tmp io x dir)
]

node_at-tmp :
    (io : Io) (s t : Scope) (d : Disk) (dir : Directory) (x : Node)
    → folder s d ≡ some dir
    → node_at t (set_folder s (insert (tmp_name io) x dir) d) ≡ node_at t d
unfolding node_at folder set_folder
node_at-tmp io s t d dir x there =
    ground (arith, lookup-insert (file_name t) (tmp_name io) x dir, tmp_name-ne-file_name io t)

list_user_uids-tmp :
    (io : Io) (s : Scope) (d : Disk) (dir : Directory) (x : Node) (readable : Bool)
    → folder s d ≡ some dir
    → list_user_uids readable (set_folder s (insert (tmp_name io) x dir) d)
      ≡ list_user_uids readable d
unfolding list_user_uids folder set_folder
list_user_uids-tmp io s d dir x readable there = elim (Bool-cases s.global) [
  | inl root ↦ rw root refl
  | inr own ↦ ground (arith, own, there, entry_uids-tmp io x dir)
]

-- What a failed change of the store leaves: all lists and all listed uids as they were, and the
-- directories too, unless the temporary file could not be removed.
pub record Unharmed (io : Io) (d d' : Disk) : Type 0 where
  pub lists : (t : Scope) → load t d' ≡ load t d
  pub uids : (readable : Bool) → list_user_uids readable d' ≡ list_user_uids readable d
  pub directories : (d' ≡ d) ⊎ (io.done_remove ≡ false)

pub same-Unharmed : (io : Io) (d : Disk) → Unharmed io d d
same-Unharmed io d = record { lists = λ t. refl; uids = λ r. refl; directories = inl refl }

Left-Unharmed :
    (io : Io) (s : Scope) (content : Content) (d : Disk) (dir dir' : Directory)
    → folder s d ≡ some dir
    → Left io s content dir dir'
    → Unharmed io d (set_folder s dir' d)
unfolding load
Left-Unharmed io s content d dir dir' there (inl same) =
    subst (Unharmed io d) (sym (ap (λ x. set_folder s x d) same ∙ set_folder_self s d dir there))
      (same-Unharmed io d)
Left-Unharmed io s content d dir dir' there (inr (stays, c, left)) =
    subst (λ x. Unharmed io d (set_folder s x d)) (sym left)
      (record {
        lists = λ t. rw (node_at-tmp io s t d dir (file c) there) refl;
        uids = λ r. list_user_uids-tmp io s d dir (file c) r there;
        directories = inr stays;
      })

-- A save that fails, at whichever call, leaves every scope's list and the listed uids as they
-- were; and the directories, unless the removal of the temporary file fails as well.
pub save_fails :
    (io : Io) (s : Scope) (bl : BlockList) (d : Disk) {e : StoreError}
    → (save io s bl d).1 ≡ some e
    → Unharmed io d (save io s bl d).0
unfolding save
save_fails io s bl d h = elim (Option-cases (folder s d)) [
  | inl missing ↦ rw (missing, save) (same-Unharmed io d)
  | inr (dir, there) ↦
      rw (there, save)
        (Left-Unharmed io s (contents bl) d dir (save_in io s (contents bl) dir).0 there
          (save_in-fails io s (contents bl) dir (rw (there, save) at h)))
]

pub save_done :
    (io : Io) (s : Scope) (bl : BlockList) (d : Disk)
    → (save io s bl d).1 ≡ none
    → (dir : Directory) × (folder s d ≡ some dir)
      × (is_directory (lookup (file_name s) dir) ≡ false)
      × ((save io s bl d).0 ≡ set_folder s (insert (file_name s) (file (contents bl)) dir) d)
unfolding save
save_done io s bl d h = elim (Option-cases (folder s d)) [
  | inl missing ↦ absurd (ground arith)
  | inr (dir, there) ↦ (
    dir,
    there,
    (save_in-done io s (contents bl) dir (ground arith)).1,
    ground (arith, save_in-done io s (contents bl) dir),
  )
]

node_at_update :
    (s t : Scope) (d : Disk) (dir : Directory) (x : Node)
    → IsInt64 s.uid
    → IsInt64 t.uid
    → folder s d ≡ some dir
    → node_at t (set_folder s (insert (file_name s) x dir) d)
      ≡ (if same_scope s t then some x else node_at t d)
unfolding node_at folder set_folder
node_at_update s t d dir x hs ht there =
    ground (arith, lookup-insert (file_name t) (file_name s) x dir, file_name-same s t hs ht)

-- After a save that succeeds, its scope loads the saved list in canonical form, and every other
-- scope loads what it loaded before. The uids of both scopes fit in 64 bits.
pub load-save :
    (io : Io) (s t : Scope) (bl : BlockList) (d : Disk)
    → IsInt64 s.uid
    → IsInt64 t.uid
    → (save io s bl d).1 ≡ none
    → load t (save io s bl d).0 ≡ (if same_scope s t then ok (canonical bl) else load t d)
unfolding load
load-save io s t bl d hs ht done =
    let (dir, there, _, saved) = save_done io s bl d done in
    rw saved (rw (node_at_update s t d dir (file (contents bl)) hs ht there) (ground arith))
