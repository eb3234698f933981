-- ===== src/Daemon/Authz/Tests.antt =====
-- Tests of the access control.
use request_blocker.Shared.{◌≡◌, refl, arith, true, false, some, list_eq, nat_eq, list_beq, ok, err}
use request_blocker.Text.{codes, pos, negsuc, itoa, atoi}
use request_blocker.Store.Scope.{user_scope}
use request_blocker.Proto.{PeerCred, is_root}
use request_blocker.Daemon.Authz.{UserDb, permission_denied, resolve_scope}
use request_blocker.Daemon.Authz.Own.{resolve_scope-itoa}

abbrev db : UserDb
db = record { uid_of = λ t. some (codes "1001"); name_of = λ t. some (codes "bob") }

abbrev alice : PeerCred
alice = record { uid = 1000; gid = 1000; pid = 7 }

abbrev root : PeerCred
root = record { uid = 0; gid = 0; pid = 8 }

alice_no_root : is_root alice ≡ false
alice_no_root = unfold is_root in refl

root_is_root : is_root root ≡ true
root_is_root = unfold is_root in refl

-- authz_test.go: a user names another user, and root does.
resolve_scope_test :
    (resolve_scope db (codes "bob") alice ≡ err permission_denied)
    × (resolve_scope db (codes "1000") alice ≡ ok (user_scope (pos 1000)))
    × (resolve_scope db (codes "bob") root ≡ ok (user_scope (pos 1001)))
unfolding resolve_scope is_root itoa atoi list_beq
resolve_scope_test = (refl, refl, refl)

-- Root may name a negative uid.
resolve_scope-itoa_example : resolve_scope db (itoa (negsuc 4)) root ≡ ok (user_scope (negsuc 4))
resolve_scope-itoa_example = resolve_scope-itoa db (negsuc 4) root root_is_root (omega arith)
