-- ===== src/Daemon/Authz.antt =====
-- cmd/webblockd/authz.go: which blocklist a request may change.
pub mod Own
pub mod Tests
use request_blocker.Shared.{
  Bool, true, false, ◌||◌, ◌&&◌, not, Option, none, some, List, [], ◌∷◌, ◌++◌, list_eq, nat_eq,
  ◌==◌, Result, ok, err, if◌then◌else◌,
}
use request_blocker.Text.{Text, codes, ℤ, pos, itoa, atoi}
use request_blocker.Store.Scope.{Scope, global_scope, user_scope}
use request_blocker.Proto.{PeerCred, is_root}

-- The system's user database: the uid that `user.Lookup` finds for a name, as text, and the
-- name that `user.LookupId` finds for a uid.
pub record UserDb : Type 0 where
  pub uid_of : Text → Option Text
  pub name_of : Text → Option Text

pub data AuthzError : Type 0 where
  permission_denied : AuthzError
  unknown_user non_numeric_uid : Text → AuthzError

lookup_name : UserDb → Text → Result AuthzError ℤ
lookup_name db target = elim (db.uid_of target) [
  | none ↦ err (unknown_user target)
  | some u ↦ elim (atoi u) [ none ↦ err (non_numeric_uid target) | some uid ↦ ok uid ]
]

pub lookup_uid : UserDb → Text → Result AuthzError ℤ
unfolding lookup_name
lookup_uid db target = elim (atoi target) [ some uid ↦ ok uid | none ↦ lookup_name db target ]

unfoldable pub resolve_scope : UserDb → Text → PeerCred → Result AuthzError Scope
unfolding lookup_uid
resolve_scope db target caller =
    if not (is_root caller)
    then (if not (target == []) && not (target == itoa (pos caller.uid))
        then err permission_denied
        else ok (user_scope (pos caller.uid)))
    else if target == [] || target == codes "global"
    then ok global_scope
    else elim (lookup_uid db target) [ err e ↦ err e | ok uid ↦ ok (user_scope uid) ]

pub scope_label_with_name : UserDb → ℤ → Text
scope_label_with_name db uid = elim (db.name_of (itoa uid)) [
  | some name ↦ codes "user:" ++ itoa uid ++ codes " (" ++ name ++ codes ")"
  | none ↦ codes "user:" ++ itoa uid
]
