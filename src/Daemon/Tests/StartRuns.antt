-- ===== src/Daemon/Tests/StartRuns.antt =====
-- Runs of the daemon from its start.
use request_blocker.Shared.{
  if◌then◌else◌, ◌==◌, ◌≡◌, refl, arith, true, false, none, some, List, [], ◌∷◌, ◌++◌, list_beq,
  list_eq, nat_eq, ok, lookup, sort, insert, contains, delete,
}
use request_blocker.Text.{
  Text, codes, pos, has_suffix, atoi, itoa, trim_suffix, trim_space, int_beq, int_le, join, text_le,
}
use request_blocker.Store.Scope.{global_scope, user_scope, label}
use request_blocker.Store.BlockList.{sorted_unique, add_unique, add_domains, add_ips}
use request_blocker.Store.Disk.{
  Disk, base_dir, default_dir, load, new_store, list_user_uids, mutate, save,
}
use request_blocker.Resolver.{resolve_many, resolve}
use request_blocker.Proto.{is_root}
use request_blocker.RateLimit.{allow, new_rate_limiter}
use request_blocker.Validate.Address.{parse_ip, to4, v4_string, normalize_ip}
use request_blocker.Daemon.Authz.{resolve_scope}
use request_blocker.Daemon.Handlers.{dispatch}
use request_blocker.Backend.State
use request_blocker.Backend.State.{v4, blocked}
use request_blocker.Daemon.Config.{Flags, parse_flags, default_config}
use request_blocker.Daemon.Engine.{rebuild, resolve_all, resolve_expired, add_entries}
use request_blocker.Daemon.Engine.Entries.Firewall.{enforced}
use request_blocker.Daemon.Engine.Refresh.{new_engine, positive_or}
use request_blocker.Daemon.Server.{Server, serve}
use request_blocker.Daemon.Server.Run.{new_server}
use request_blocker.Daemon.Start.{
  flags_ttl, Outside, serving, Event, connected, refreshed, start, live_through,
}
use request_blocker.Daemon.Start.Life.{start_exact, refresh_exact}
use request_blocker.Daemon.Start.Stored.{left_on_disk, start-load}
use request_blocker.Daemon.Peer.{get_peer_cred}
use request_blocker.Daemon.Start.Foreign.{life-foreign}
use request_blocker.Daemon.Tests.Fixtures.{recorder, world, no_dns, disk, alice}
use request_blocker.Daemon.Tests.ServerRuns.{vouched, connection}

abbrev flags : Flags
flags = record {
  socket = none;
  store = none;
  refresh = none;
  dns_ttl = some (pos 5);
  resolve_timeout = none;
  resolve_concurrency = none;
  teardown = false;
}

abbrev outside : Outside
outside = record { made_dir = true; dns = no_dns; first = world; second = world }

-- Only the default directory has a store.
abbrev disks : Text → Disk
disks dir = if dir == default_dir then disk else record { root = []; users = none }

abbrev server : Server recorder (flags_ttl flags)
server =
    new_server recorder (flags_ttl flags) (parse_flags flags default_config)
      (rebuild recorder (flags_ttl flags) world world no_dns resolve_all
        (new_engine recorder (flags_ttl flags) disk (recorder.new tt))).0

starts : start recorder flags outside disks tt ≡ serving server
unfolding start base_dir rebuild new_store resolve_many resolve parse_flags positive_or load lookup
    list_beq list_user_uids sort has_suffix atoi trim_suffix itoa insert contains
starts = refl

start_exact_example :
    blocked server.engine.live (pos 1000) v4 (codes "10.0.0.5")
    ≡ enforced recorder (flags_ttl flags) server.engine (pos 1000) v4 (codes "10.0.0.5")
start_exact_example =
    start_exact recorder flags outside disks tt server (pos 1000) v4 (codes "10.0.0.5") starts
      (omega arith)

abbrev events : List Event
events = connected connection ∷ refreshed world world no_dns ∷ []

refreshes :
    (rebuild recorder
      (flags_ttl flags)
      world
      world
      no_dns
      resolve_expired
      (live_through recorder (flags_ttl flags) events server).engine).1
    ≡ ok tt
unfolding live_through serve allow new_rate_limiter rebuild new_store resolve_many resolve
    parse_flags positive_or dispatch resolve_scope is_root load lookup list_beq list_user_uids sort
    has_suffix atoi trim_suffix trim_space itoa insert contains State.is_empty parse_ip to4 int_beq
    int_le v4_string join mutate save delete sorted_unique add_ips add_domains add_unique text_le
    normalize_ip label add_entries
refreshes = refl

refresh_exact_example :
    let after =
      (live_through recorder
        (flags_ttl flags)
        (events ++ refreshed world world no_dns ∷ [])
        server).engine in
    blocked after.live (pos 1000) v4 (codes "10.0.0.5")
    ≡ enforced recorder (flags_ttl flags) after (pos 1000) v4 (codes "10.0.0.5")
refresh_exact_example =
    refresh_exact recorder flags outside disks tt server events world world no_dns (pos 1000) v4
      (codes "10.0.0.5") starts refreshes (omega arith)

start-load_example :
    load (user_scope (pos 1000)) (left_on_disk recorder (start recorder flags outside disks tt))
    ≡ load (user_scope (pos 1000)) (disks (base_dir (parse_flags flags default_config).store_dir))
start-load_example = start-load recorder flags outside disks tt (user_scope (pos 1000))

-- The second request comes too soon after the first, the third has no identity.
abbrev foreign_events : List Event
foreign_events =
    connected connection
    ∷ refreshed world world no_dns
    ∷ connected connection
    ∷ connected (record connection { peer = record vouched { so_peercred = none } })
    ∷ []

alice_no_root : is_root alice ≡ false
alice_no_root = unfold is_root in refl

life-foreign_example :
    load global_scope (live_through recorder (flags_ttl flags) foreign_events server).engine.disk
    ≡ load global_scope (disks (base_dir (parse_flags flags default_config).store_dir))
unfolding get_peer_cred
life-foreign_example =
    life-foreign recorder flags outside disks tt server foreign_events global_scope starts
      ((alice_no_root, omega arith, refl), (tt, ((alice_no_root, omega arith, refl), (tt, tt))))
      (omega arith)
