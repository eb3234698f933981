-- ===== src/Store/Disk/Users.antt =====
-- `ListUserUIDs` after a save.
use request_blocker.Shared.{
  Bool, true, false, ◌||◌, none, some, List, [], ◌∷◌, ◌++◌, ◌≡◌, ◌∙◌, refl, arith, list_eq, nat_eq,
  ◌==◌, list_beq_iff, contains, contains-sort, sort, sort-IsSorted, IsSorted, lookup, insert,
  Result, ok, err, ◌⊎◌, inl, inr, Option-cases,
}
use request_blocker.Text.{
  Text, ℤ, int_eq, int_beq_iff, int_ord, IsInt64, itoa, atoi-itoa, has_suffix-append,
  trim_suffix-append,
}
use request_blocker.Store.Scope.{Scope, user_scope}
use request_blocker.Store.BlockList
use request_blocker.Store.BlockList.{BlockList}
use request_blocker.Store.Disk.{
  Io, StoreError, load, node_at, Disk, Directory, Content, directory, file, folder, set_folder,
  file_name, contents, save, is_directory, json_suffix, entry_uid, entry_uids, list_user_uids,
}
use request_blocker.Store.Disk.Paths.{same_scope}
use request_blocker.Store.Disk.Save.{save_done}

entry_uid-file :
    (uid : ℤ) (c : Content) → IsInt64 uid → entry_uid (itoa uid ++ json_suffix, file c) ≡ some uid
unfolding entry_uid
entry_uid-file uid c h =
    rw (has_suffix-append (itoa uid) json_suffix, trim_suffix-append (itoa uid) json_suffix)
      (atoi-itoa uid h)

-- The kind of an entry does not depend on what its file holds.
entry_uid-content :
    (name : Text) (c c' : Content) → entry_uid (name, file c) ≡ entry_uid (name, file c')
unfolding entry_uid
entry_uid-content name c c' = refl

entry_uid-directory : (name : Text) → entry_uid (name, directory) ≡ none
unfolding entry_uid
entry_uid-directory name = refl

contains-entry_uids :
    (uid : ℤ) (c : Content) (dir : Directory) (u : ℤ)
    → IsInt64 uid
    → is_directory (lookup (itoa uid ++ json_suffix) dir) ≡ false
    → contains (entry_uids (insert (itoa uid ++ json_suffix) (file c) dir)) u
      ≡ (uid == u || contains (entry_uids dir) u)
unfolding entry_uids insert contains lookup
contains-entry_uids uid c [] u h free = ground (arith, entry_uid-file uid c h)
contains-entry_uids uid c ((name, directory) ∷ dir) u h free = ground (
  arith,
  contains-entry_uids uid c dir u h,
  entry_uid-file uid c h,
  list_beq_iff name (itoa uid ++ json_suffix),
  entry_uid-directory name,
)
contains-entry_uids uid c ((name, file c') ∷ dir) u h free = ground (
  arith,
  contains-entry_uids uid c dir u h,
  entry_uid-file uid c h,
  entry_uid-file uid c' h,
  list_beq_iff name (itoa uid ++ json_suffix),
)

-- The list of a scope, empty where it cannot be loaded.
abbrev pub stored_in : Result StoreError BlockList → BlockList
stored_in (ok bl) = bl
stored_in (err e) = BlockList.empty

unfoldable pub stored : Scope → Disk → BlockList
unfolding load
stored s d = stored_in (load s d)

-- Two scopes of one list.
pub same_scope-stored : (s t : Scope) (d : Disk) → same_scope s t ≡ true → stored t d ≡ stored s d
unfolding stored load node_at folder file_name
same_scope-stored s t d same = ground (arith, same, int_beq_iff s.uid t.uid)

unlisted_entry :
    (dir : Directory) (u : ℤ)
    → IsInt64 u
    → contains (entry_uids dir) u ≡ false
    → (lookup (itoa u ++ json_suffix) dir ≡ none)
      ⊎ (lookup (itoa u ++ json_suffix) dir ≡ some directory)
unfolding entry_uids lookup contains
unlisted_entry [] u h free = inl refl
unlisted_entry ((name, directory) ∷ dir) u h free =
    ground (arith, entry_uid-directory name, unlisted_entry dir u h)
unlisted_entry ((name, file c) ∷ dir) u h free = ground (
  arith,
  entry_uid-file u c h,
  unlisted_entry dir u h,
  int_beq_iff u u,
  list_beq_iff name (itoa u ++ json_suffix),
)

-- A uid that is not listed has no stored list.
pub stored_unlisted :
    (d : Disk) (readable : Bool) (uids : List ℤ) (u : ℤ)
    → IsInt64 u
    → list_user_uids readable d ≡ ok uids
    → contains uids u ≡ false
    → stored (user_scope u) d ≡ BlockList.empty
unfolding list_user_uids stored node_at folder file_name
stored_unlisted d readable uids u h listed free = elim (Option-cases d.users) [
  | inl missing ↦ rw missing
  | inr (dir, there) ↦
      elim (unlisted_entry dir u h (ground (arith, contains-sort (entry_uids dir) u))) [
        | inl none_there ↦ ground arith
        | inr is_dir ↦ ground arith
      ]
]

-- After a save of a user's list that succeeds, in a store whose users could be listed, the
-- listed uids are in ascending order, and are those that were listed before and the user's,
-- which fits in 64 bits.
pub list_user_uids-save :
    (io : Io) (uid : ℤ) (bl : BlockList) (d : Disk) (uids : List ℤ)
    → IsInt64 uid
    → list_user_uids true d ≡ ok uids
    → (save io (user_scope uid) bl d).1 ≡ none
    → (uids' : List ℤ) × (list_user_uids true (save io (user_scope uid) bl d).0 ≡ ok uids')
      × IsSorted uids'
      × ((u : ℤ) → contains uids' u ≡ (uid == u || contains uids u))
unfolding list_user_uids folder set_folder file_name
list_user_uids-save io uid bl d uids h before done =
    let (dir, there, free, saved) = save_done io (user_scope uid) bl d done in
    let next = entry_uids (insert (itoa uid ++ json_suffix) (file (contents bl)) dir) in
    (
      sort next,
      rw saved refl,
      sort-IsSorted next,
      λ u.
          contains-sort next u
          ∙ contains-entry_uids uid (contents bl) dir u h free
          ∙ ground (arith, contains-sort (entry_uids dir) u),
    )
