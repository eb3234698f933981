-- ===== src/Daemon/Tests/EngineRuns.antt =====
-- Runs of the engine.
use request_blocker.Shared.{
  ℕ, true, false, ◌||◌, List, [], ◌∷◌, ◌≡◌, refl, arith, Map, list_eq, nat_eq, contains, lookup,
  insert, delete, list_beq, sort, Result, ok,
}
use request_blocker.Text.{
  Text, codes, ℤ, pos, int_eq, int_beq, has_suffix, trim_suffix, atoi, itoa, join, text_le,
}
use request_blocker.Store.Scope.{Scope, global_scope, user_scope}
use request_blocker.Store.BlockList.{
  BlockList, sorted_unique, add_unique, remove_all, add_domains, add_ips, remove_domains,
  remove_ips,
}
use request_blocker.Store.Disk.{removed_tmp, load, list_user_uids, mutate, save}
use request_blocker.Store.Disk.Users.{stored}
use request_blocker.Resolver.{Outcomes, resolve_many, resolve}
use request_blocker.Backend.State
use request_blocker.Backend.State.{v4, blocked, user_set}
use request_blocker.Validate.Address.{parse_ip, to4, v4_string}
use request_blocker.Daemon.Engine.{
  Engine, resolve_expired, EngineError, rebuild, add_entries, remove_entries,
}
use request_blocker.Daemon.Engine.Desired.{blocks}
use request_blocker.Daemon.Engine.Rebuild.{rebuild_exact}
use request_blocker.Daemon.Engine.Entries.Firewall.{enforced, remaining, remove_entries_exact}
use request_blocker.Daemon.Tests.Fixtures.{recorder, world, fine, no_dns, disk, engine}

-- The expired domain is looked up, which fails, and keeps its addresses.
abbrev rebuilt_engine : Engine recorder 10
rebuilt_engine = (rebuild recorder 10 world world no_dns resolve_expired engine).0

rebuild_succeeds : (rebuild recorder 10 world world no_dns resolve_expired engine).1 ≡ ok tt
unfolding rebuild load lookup list_beq list_user_uids sort has_suffix atoi trim_suffix itoa insert
    contains
rebuild_succeeds = refl

blocks_all :
    (contains rebuilt_engine.live.global.v4 (codes "10.0.0.7") ≡ true)
    × (blocked rebuilt_engine.live (pos 1000) v4 (codes "10.0.0.5") ≡ true)
    × (blocked rebuilt_engine.live (pos 1001) v4 (codes "10.0.0.5") ≡ false)
unfolding rebuild load lookup list_beq list_user_uids sort has_suffix atoi trim_suffix itoa insert
    contains resolve_many resolve user_set State.is_empty parse_ip to4 int_beq v4_string join
blocks_all = (refl, refl, refl)

rebuild_exact_example : blocked rebuilt_engine.live (pos 1000) v4 (codes "10.0.0.5") ≡ (
    blocks rebuilt_engine.cache (stored global_scope engine.disk) v4 (codes "10.0.0.5")
    || blocks rebuilt_engine.cache
        (stored (user_scope (pos 1000)) engine.disk)
        v4
        (codes "10.0.0.5"))
rebuild_exact_example =
    rebuild_exact recorder 10 world world no_dns resolve_expired engine (pos 1000) v4
      (codes "10.0.0.5") tt rebuild_succeeds (omega arith)

abbrev pub global_list : BlockList
global_list = record { domains = codes "a.com" ∷ []; ips = [] }

abbrev pub user_lists : Map ℤ BlockList
user_lists = (pos 1000, record { domains = []; ips = codes "10.0.0.5" ∷ [] }) ∷ []

abbrev failed : Outcomes
failed = record { results = []; failures = codes "a.com" ∷ [] }

abbrev ip : List Text
ip = codes "10.0.0.5" ∷ []

abbrev own : Scope
own = user_scope (pos 1000)

abbrev added : Engine recorder 10 × Result EngineError (ℕ × ℕ)
added = add_entries recorder 10 fine world world no_dns own (codes "b.com" ∷ []) ip engine

abbrev removed : Engine recorder 10 × Result EngineError (ℕ × ℕ)
removed = remove_entries recorder 10 fine world world no_dns own [] ip engine

-- The domain is new, the address was there.
add_succeeds : added.1 ≡ ok (1, 0)
unfolding add_entries load lookup list_beq list_user_uids sort has_suffix atoi trim_suffix itoa
    insert contains resolve_many resolve State.is_empty parse_ip to4 int_beq v4_string join mutate
    save removed_tmp delete sorted_unique add_ips add_domains add_unique text_le
add_succeeds = refl

remove_succeeds : removed.1 ≡ ok (0, 1)
unfolding remove_entries load lookup list_beq list_user_uids sort has_suffix atoi trim_suffix itoa
    insert contains resolve_many resolve State.is_empty parse_ip to4 int_beq v4_string join mutate
    save removed_tmp delete sorted_unique remove_ips remove_domains remove_all text_le
remove_succeeds = refl

remove_entries_exact_example :
    (contains (stored own removed.0.disk).domains (codes "10.0.0.5")
      ≡ remaining true [] (stored own engine.disk).domains (codes "10.0.0.5"))
    × (contains (stored own removed.0.disk).ips (codes "10.0.0.5")
        ≡ remaining true ip (stored own engine.disk).ips (codes "10.0.0.5"))
    × (blocked removed.0.live (pos 1000) v4 (codes "10.0.0.5")
        ≡ enforced recorder 10 removed.0 (pos 1000) v4 (codes "10.0.0.5"))
unfolding contains int_beq
remove_entries_exact_example =
    remove_entries_exact recorder 10 fine world world no_dns own [] ip engine (0, 1) own
      (codes "10.0.0.5") (pos 1000) v4 (codes "10.0.0.5") tt remove_succeeds (omega arith)
      (omega arith) (omega arith)
