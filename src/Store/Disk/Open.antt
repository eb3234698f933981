-- ===== src/Store/Disk/Open.antt =====
-- `New` leaves the stored lists as they are.
use request_blocker.Shared.{
  Bool, true, false, Option, none, some, ◌≡◌, refl, subst, lookup, list_eq, nat_eq,
}
use request_blocker.Store.Scope.{Scope}
use request_blocker.Store.Disk.{
  Disk, Directory, load, new_store, users_or_new, node_at, folder, file_name,
}

opened-load :
    (d : Disk) (t : Scope) → load t (record d { users = some (users_or_new d.users) }) ≡ load t d
unfolding load node_at folder file_name lookup
opened-load d t = go t.global d.users
  where
    go :
        (global : Bool) (users : Option Directory)
        → load
            (record t { global = global })
            (record { root = d.root; users = some (users_or_new users) })
          ≡ load (record t { global = global }) (record { root = d.root; users = users })
    go true users = refl
    go false none = refl
    go false (some dir) = refl

pub new_store-load :
    (made : Bool) (d d' : Disk) (t : Scope) → new_store made d ≡ some d' → load t d' ≡ load t d
unfolding new_store
new_store-load true d d' t h = subst (λ x. load t x ≡ load t d) (some-injective h) (opened-load d t)
  where
    some-injective : {a b : Disk} → some a ≡ some b → a ≡ b
    some-injective e = cc
new_store-load false d d' t h = cc
