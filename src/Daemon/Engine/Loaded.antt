-- ===== src/Daemon/Engine/Loaded.antt =====
-- What `loadAll` reads from the store.
use request_blocker.Shared.{
  Option, none, some, List, [], ◌∷◌, ◌≡◌, ◌∙◌, refl, arith, list_eq, nat_eq, contains, contains-nil,
  contains-cons, Map, IsMap, lookup, lookup-insert, insert, insert-IsMap, ok, >>=-eq-ok,
  if◌then◌else◌,
}
use request_blocker.Text.{ℤ, int_eq, int_beq_iff, IsInt64}
use request_blocker.Store.Scope.{Scope, global_scope, user_scope}
use request_blocker.Store.BlockList
use request_blocker.Store.BlockList.{BlockList}
use request_blocker.Store.Disk.{Disk, load, list_user_uids}
use request_blocker.Store.Disk.Users.{stored, stored_unlisted}
use request_blocker.Daemon.Engine.Tables.{World, load_users, load_all}

pub stored-load : (s : Scope) (d : Disk) (bl : BlockList) → load s d ≡ ok bl → stored s d ≡ bl
unfolding stored
stored-load s d bl h = rw h

load_users-lists :
    (uids : List ℤ) (d : Disk) (m lists : Map ℤ BlockList) (u : ℤ)
    → IsMap m
    → load_users uids d m ≡ ok lists
    → IsMap lists
      × (lookup u lists ≡ (if contains uids u then some (stored (user_scope u) d) else lookup u m))
unfolding load_users
load_users-lists [] d m lists u h e =
    let same : m ≡ lists = ground arith in (rw same at h, ground (arith, contains-nil u))
load_users-lists (uid ∷ uids) d m lists u h e =
    let (bl, loaded, rest) = >>=-eq-ok (load (user_scope uid) d) _ e in
    let (is_map, found) =
      load_users-lists uids d (insert uid bl m) lists u (insert-IsMap uid bl m h) rest in
    (
      is_map,
      found
          ∙ ground (
            arith,
            contains-cons uid uids u,
            int_beq_iff uid u,
            lookup-insert u uid bl m,
            stored-load (user_scope uid) d bl loaded,
          ),
    )

abbrev pub or_empty : Option BlockList → BlockList
or_empty none = BlockList.empty
or_empty (some bl) = bl

-- A load that succeeds returns the stored list of the global scope and of every user.
pub load_all-stored :
    (w : World) (d : Disk) (global : BlockList) (lists : Map ℤ BlockList) (u : ℤ)
    → IsInt64 u
    → load_all w d ≡ ok (global, lists)
    → (global ≡ stored global_scope d)
      × IsMap lists
      × (or_empty (lookup u lists) ≡ stored (user_scope u) d)
unfolding load_all
load_all-stored w d global lists u h e =
    let (g, g_loaded, e1) = >>=-eq-ok (load global_scope d) _ e in
    let (uids, listed, e2) = >>=-eq-ok (list_user_uids w.readable d) _ e1 in
    let (ls, all_loaded, e3) = >>=-eq-ok (load_users uids d []) _ e2 in
    let (is_map, found) = load_users-lists uids d [] ls u tt all_loaded in
    let same : ls ≡ lists = ground arith in
    (
      ground (arith, stored-load global_scope d g g_loaded),
      rw same at is_map,
      ground (arith, found, stored_unlisted d w.readable uids u h listed, lookup_nil u),
    )
  where
    lookup_nil : (k : ℤ) → lookup {V = BlockList} k [] ≡ none
    lookup_nil k = unfold lookup in refl
