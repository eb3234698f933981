-- ===== src/Daemon/Authz/Own.antt =====
-- Who may change which list.
use request_blocker.Shared.{
  true, false, ◌||◌, ◌≡◌, refl, arith, [], list_eq, nat_eq, ◌==◌, list_beq_iff, ok, err, none,
  if◌then◌else◌,
}
use request_blocker.Text.{Text, codes, ℤ, pos, IsInt64, itoa, atoi, atoi-itoa}
use request_blocker.Store.Scope.{user_scope}
use request_blocker.Proto.{PeerCred, is_root}
use request_blocker.Daemon.Authz.{UserDb, permission_denied, resolve_scope}

-- A caller that is not root gets its own list if it names no user or its own uid in decimal, and
-- is denied otherwise, whatever the user database says.
pub resolve_scope-user :
    (db : UserDb) (target : Text) (caller : PeerCred)
    → is_root caller ≡ false
    → resolve_scope db target caller ≡ (
        if target == [] || target == itoa (pos caller.uid)
        then ok (user_scope (pos caller.uid))
        else err permission_denied)
unfolding resolve_scope
resolve_scope-user db target caller user = ground arith

-- Root reaches the list of every uid of 64 bits by its decimal print, negative uids included,
-- whatever the user database says.
pub resolve_scope-itoa :
    (db : UserDb) (uid : ℤ) (caller : PeerCred)
    → is_root caller ≡ true
    → IsInt64 uid
    → resolve_scope db (itoa uid) caller ≡ ok (user_scope uid)
unfolding resolve_scope
resolve_scope-itoa db uid caller root h = ground (
  arith,
  atoi-itoa uid h,
  list_beq_iff (itoa uid) [],
  list_beq_iff (itoa uid) (codes "global"),
  not_number,
)
  where
    not_number : (atoi [] ≡ none) × (atoi (codes "global") ≡ none)
    not_number = unfold atoi in (refl, refl)
