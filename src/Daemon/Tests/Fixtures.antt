-- ===== src/Daemon/Tests/Fixtures.antt =====
-- What the runs share: the backend, the engines and the worlds around them.
use request_blocker.Shared.{true, none, some, [], ◌∷◌, refl, list_eq, nat_eq}
use request_blocker.Text.{codes, pos}
use request_blocker.Store.Disk.{Io, Disk, file, json}
use request_blocker.Validate.Address.{Ip4}
use request_blocker.Resolver.{Dns}
use request_blocker.Backend.State.{State, no_addresses, blocked}
use request_blocker.Backend.Interface.{Backend}
use request_blocker.Proto.{Request, PeerCred, action_add}
use request_blocker.Daemon.Authz.{UserDb}
use request_blocker.Daemon.Engine.{World, Cache, Engine}
use request_blocker.Daemon.Handlers.{Ambient}

-- A backend that only records the state it is given, and always succeeds.
abbrev pub recorder : Backend
recorder = record {
  name = codes "recorder";
  Live = State;
  Kernel = Unit;
  new = λ k. record { global = no_addresses; per_user = [] };
  apply = λ s l. (s, true);
  teardown = λ l. (record { global = no_addresses; per_user = [] }, true);
  drops = blocked;
  IsSound = λ l. Unit;
  apply_sound = λ s l m h. tt;
  apply_exact = λ s l m h e uid f x. refl;
  teardown_sound = λ l. tt;
  new_sound = λ k. tt;
}

abbrev pub world : World
world = record { now = 100; readable = true; order = λ xs. xs; same_members = λ xs v. refl }

abbrev pub fine : Io
fine = record {
  suffix = codes "1";
  done_create = true;
  done_write = true;
  done_chmod = true;
  done_close = true;
  done_rename = true;
  done_remove = true;
}

abbrev pub no_dns : Dns
no_dns d = none

-- One domain for everybody, and one address for uid 1000.
abbrev pub disk : Disk
disk = record {
  root = (codes "global.json", file (json (some (codes "a.com" ∷ [])) none)) ∷ [];
  users = some ((codes "1000.json", file (json none (some (codes "10.0.0.5" ∷ [])))) ∷ []);
}

abbrev pub cached : Cache
cached =
    (codes "a.com", record { res = record { v4 = codes "10.0.0.7" ∷ []; v6 = [] }; expires = 50 })
    ∷ []

abbrev pub engine : Engine recorder 10
engine = record {
  disk = disk;
  cache = cached;
  live = record { global = no_addresses; per_user = [] };
}

abbrev pub db : UserDb
db = record { uid_of = λ t. none; name_of = λ t. none }

abbrev pub ambient : Ambient
ambient = record { lower = λ c. c; db = db; io = fine; dns = no_dns; first = world; second = world }

abbrev pub alice : PeerCred
alice = record { uid = 1000; gid = 1000; pid = 7 }

abbrev pub address : Ip4
address = record { a = 93; b = 184; c = 216; d = 34 }

abbrev pub add_request : Request
add_request = record {
  version = pos 1;
  action = action_add;
  domains = [];
  ips = codes " 93.184.216.34" ∷ [];
  target_user = [];
}
