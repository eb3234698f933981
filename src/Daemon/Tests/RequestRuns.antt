-- ===== src/Daemon/Tests/RequestRuns.antt =====
-- Runs of the dispatcher.
use request_blocker.Shared.{
  ◌+◌, ◌≤◌, true, false, inr, none, some, List, [], ◌∷◌, ◌≡◌, refl, arith, All, list_eq, nat_eq,
  length, contains, lookup, insert, delete, list_beq, sort, ok,
}
use request_blocker.Text.{
  Text, codes, pos, int_eq, int_le, int_beq, has_suffix, has_prefix, trim_suffix, trim_space, atoi,
  itoa, join, text_le, index, last_index, count, take, drop, split,
}
use request_blocker.Store.Scope.{global_scope, user_scope, label}
use request_blocker.Store.BlockList.{sorted_unique, add_unique, add_domains, add_ips}
use request_blocker.Store.Disk.{Disk, file, json, load, list_user_uids, mutate, save}
use request_blocker.Backend.State
use request_blocker.Backend.State.{v4, blocked, user_set}
use request_blocker.Proto.{is_root, version}
use request_blocker.Validate.Address.{parse_ip, to4, v4_string, normalize_ip}
use request_blocker.Validate.Domain.{validate_domain, validate_label}
use request_blocker.Validate.Normalize.{normalize_domain}
use request_blocker.Validate.Domain.Hostname.{IsHostname}
use request_blocker.Daemon.Authz.{resolve_scope}
use request_blocker.Daemon.Engine.{Engine, add_entries}
use request_blocker.Daemon.Handlers.{Response, dispatch, show, normalize_and_validate}
use request_blocker.Daemon.Handlers.Validated.{normalize_and_validate-ok}
use request_blocker.Daemon.Access.{show-agrees, dispatch-own}
use request_blocker.Daemon.Access.Changed.{Changed, dispatch-Changed}
use request_blocker.Daemon.Access.Added.{dispatch-drops}
use request_blocker.Daemon.Tests.Fixtures.{
  recorder, disk, engine, db, ambient, alice, address, add_request,
}

abbrev after : Engine recorder 10 × Response
after = dispatch recorder 10 ambient alice add_request engine

alice_no_root : is_root alice ≡ false
alice_no_root = unfold is_root in refl

alice_own : resolve_scope db [] alice ≡ ok (user_scope (pos 1000))
unfolding resolve_scope is_root list_beq
alice_own = refl

known : int_le add_request.version version ≡ true
known = unfold int_le in refl

listed : contains add_request.ips (codes " 93.184.216.34") ≡ true
unfolding contains list_beq
listed = refl

normal : normalize_ip (codes " 93.184.216.34") ≡ ok (v4_string address, false)
unfolding parse_ip trim_space join normalize_ip v4_string itoa to4
normal = refl

answer :
    (after.1.is_ok ≡ true)
    × (after.1.message ≡ codes "0 domain(s) and 1 IP(s) added to user:1000 blocklist")
unfolding dispatch resolve_scope is_root load lookup list_beq list_user_uids sort has_suffix atoi
    trim_suffix trim_space itoa insert contains State.is_empty parse_ip to4 int_beq int_le v4_string
    join mutate save delete sorted_unique add_ips add_domains add_unique text_le normalize_ip label
    add_entries
answer = (refl, refl)

dispatch-drops_example : blocked after.0.live (pos 1000) v4 (v4_string address) ≡ true
dispatch-drops_example =
    dispatch-drops recorder 10 ambient alice add_request engine (user_scope (pos 1000)) (pos 1000)
      (codes " 93.184.216.34") (v4_string address) false known refl alice_own tt (omega arith)
      (omega arith) (inr refl) listed normal answer.0

dispatch-own_example : load global_scope after.0.disk ≡ load global_scope disk
dispatch-own_example =
    dispatch-own recorder 10 ambient alice add_request engine global_scope alice_no_root
      (omega arith) (omega arith) refl

-- The list of another user does not show.
abbrev other : Disk
other = record disk {
  users = some (
      (codes "1001.json", file (json (some (codes "b.com" ∷ [])) none))
      ∷ (codes "1000.json", file (json none (some (codes "10.0.0.5" ∷ []))))
      ∷ []);
}

same_own : load (user_scope (pos 1000)) disk ≡ load (user_scope (pos 1000)) other
unfolding load itoa lookup list_beq
same_own = refl

same_global : load global_scope disk ≡ load global_scope other
unfolding load lookup list_beq
same_global = refl

show-agrees_example : show db true alice disk ≡ show db false alice other
show-agrees_example =
    show-agrees db db true false alice disk other alice_no_root same_global same_own

abbrev one_domain : List Text
one_domain = codes "a.com" ∷ []

abbrev canonical : List Text
canonical = v4_string address ∷ []

both_pass :
    normalize_and_validate (λ c. c) (codes "http://A.com/x" ∷ []) (codes " 93.184.216.34" ∷ [])
    ≡ ok (one_domain, canonical)
unfolding normalize_and_validate parse_ip trim_space join normalize_ip v4_string itoa to4
    normalize_domain contains index last_index count take drop trim_suffix validate_domain
    validate_label split has_prefix has_suffix
both_pass = refl

normalize_and_validate-ok_example :
    (length one_domain + length canonical ≤ 256)
    × (length one_domain ≡ length (codes "http://A.com/x" ∷ []))
    × (length canonical ≡ length (codes " 93.184.216.34" ∷ []))
    × All IsHostname one_domain
    × (normalize_and_validate (λ c. c) one_domain canonical ≡ ok (one_domain, canonical))
normalize_and_validate-ok_example =
    normalize_and_validate-ok (λ c. c) (codes "http://A.com/x" ∷ []) (codes " 93.184.216.34" ∷ [])
      one_domain canonical both_pass

dispatch-Changed_example :
    (domains : List Text) × (ips : List Text) × (normalize_and_validate ambient.lower
        add_request.domains add_request.ips
      ≡ ok (domains, ips))
    × Changed recorder 10 ambient true (user_scope (pos 1000)) domains ips engine after.0
dispatch-Changed_example =
    dispatch-Changed recorder 10 ambient true alice add_request engine (user_scope (pos 1000)) known
      refl alice_own (omega arith) answer.0
