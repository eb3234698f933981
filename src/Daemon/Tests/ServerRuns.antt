-- ===== src/Daemon/Tests/ServerRuns.antt =====
-- The connection of the runs, and a run of interleaved steps.
use request_blocker.Shared.{
  ◌+◌, ◌||◌, true, ◌≡◌, refl, arith, some, [], ◌∷◌, list_beq, list_eq, nat_eq, lookup, insert,
  delete, sort, contains, ok, Map,
}
use mathlib.Core.List.{Memᴰ}
use request_blocker.Text.{codes, ℤ, int_eq, pos, has_suffix, trim_suffix, atoi, itoa, text_le}
use request_blocker.Store.Scope.{global_scope, user_scope}
use request_blocker.Store.BlockList.{BlockList, add_domains, add_ips, add_unique, sorted_unique}
use request_blocker.Store.Disk.{Disk, load, save, removed_tmp, mutate, list_user_uids}
use request_blocker.Store.Disk.Users.{stored}
use request_blocker.Resolver.{Outcomes}
use request_blocker.Backend.State.{v4, blocked}
use request_blocker.Daemon.Engine.{cache_results, build_and_apply, add_to}
use request_blocker.Daemon.Engine.Desired.{blocks}
use request_blocker.Daemon.Engine.Interleaved.{
  System, locked, reading, quiet, Reaches, here, after, lock_second, load_global, list_uids, adding,
  load_user,
}
use request_blocker.Daemon.Engine.Interleaved.Applied.{applying_exact}
use request_blocker.Daemon.Peer.{PeerCalls}
use request_blocker.Daemon.Server.{Connection}
use request_blocker.Daemon.Tests.EngineRuns.{global_list}
use request_blocker.Daemon.Tests.Fixtures.{
  recorder, world, fine, disk, engine, ambient, alice, add_request,
}

abbrev pub vouched : PeerCalls
vouched = record { syscall_conn = true; control = true; so_peercred = some alice }

abbrev pub connection : Connection
connection = record { now = 1; peer = vouched; request = some add_request; ambient = ambient }

-- A second phase has listed the uids when another request adds an address to one of their lists.
abbrev outcomes : Outcomes
outcomes = record { results = []; failures = codes "a.com" ∷ [] }

abbrev start : System recorder 10
start = quiet recorder 10 engine

abbrev at_lock : System recorder 10
at_lock = record {
  engine = record engine { cache = cache_results (world.now + 10) outcomes.results engine.cache };
  holder = locked;
  since = disk ∷ [];
}

abbrev at_uids : System recorder 10
at_uids = record {
  engine = at_lock.engine;
  holder = reading global_list (pos 1000 ∷ []) [];
  since = disk ∷ [];
}

abbrev new_disk : Disk
new_disk =
    (mutate fine (user_scope (pos 1000)) (add_to recorder 10 [] (codes "10.0.0.6" ∷ [])) disk).0

abbrev own_list : BlockList
own_list = record { domains = []; ips = codes "10.0.0.5" ∷ codes "10.0.0.6" ∷ [] }

abbrev lists : Map ℤ BlockList
lists = insert (pos 1000) own_list []

abbrev at_end : System recorder 10
at_end = record {
  engine = record (at_lock.engine) { disk = new_disk };
  holder = reading global_list [] lists;
  since = new_disk ∷ disk ∷ [];
}

global_read : load global_scope disk ≡ ok global_list
unfolding load lookup list_beq
global_read = refl

uids_read : list_user_uids true disk ≡ ok (pos 1000 ∷ [])
unfolding list_user_uids sort has_suffix atoi trim_suffix
uids_read = refl

own_read : load (user_scope (pos 1000)) new_disk ≡ ok own_list
unfolding load mutate save removed_tmp lookup insert delete list_beq itoa add_domains add_ips
    add_unique sorted_unique contains sort text_le
own_read = refl

path : Reaches recorder 10 start at_end
path =
    after
      (after
        (after
          (after (after here (lock_second world outcomes refl))
            (load_global global_list refl global_read))
          (list_uids global_list true (pos 1000 ∷ []) refl uids_read))
        (adding fine (user_scope (pos 1000)) [] (codes "10.0.0.6" ∷ [])))
      (load_user global_list own_list (pos 1000) [] [] refl own_read)

applies : (build_and_apply recorder 10 world global_list lists at_end.engine).1 ≡ ok tt
unfolding build_and_apply
applies = refl

applying_exact_example :
    (d : Disk) × (d' : Disk) × Memᴰ d at_end.since
    × Memᴰ d' at_end.since
    × (let after = (build_and_apply recorder 10 world global_list lists at_end.engine).0 in
        blocked after.live (pos 1000) v4 (codes "10.0.0.6") ≡ (
          blocks after.cache (stored global_scope d) v4 (codes "10.0.0.6")
          || blocks after.cache (stored (user_scope (pos 1000)) d') v4 (codes "10.0.0.6")))
applying_exact_example =
    applying_exact recorder 10 engine at_end world global_list lists (pos 1000) v4
      (codes "10.0.0.6") path tt refl applies (omega arith)
