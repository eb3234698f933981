-- ===== src/Daemon/Engine/Tables.antt =====
-- What the engine works on, without its backend: the lists as loaded, the cache and the sets of
-- addresses that it makes of them. A clock reads nanoseconds.
use request_blocker.Shared.{
  ℕ, Bool, true, false, Option, none, some, List, [], ◌∷◌, ◌≡◌, list_eq, nat_eq, ltb, contains, Map,
  lookup, insert, delete, Result, ok, ◌>>=◌, if◌then◌else◌,
}
use request_blocker.Text.{Text, ℤ, int_eq}
use request_blocker.Store.Scope.{global_scope, user_scope}
use request_blocker.Store.BlockList.{BlockList}
use request_blocker.Store.Disk.{Disk, StoreError, load, list_user_uids}
use request_blocker.Validate.Address.{Ip, Ip4, parse_ip, to4, v4_string, ip_string}
use request_blocker.Resolver.{Resolved}
use request_blocker.Backend.State.{IpSet, State, is_empty}

pub data ResolveMode : Type 0 where
  resolve_missing resolve_expired resolve_all : ResolveMode

pub record CacheEntry : Type 0 where
  pub res : Resolved
  pub expires : ℕ

abbrev pub Cache : Type 0
Cache = Map Text CacheEntry

-- What one locked phase meets outside: the time, whether the directory of the users can be
-- read, and the order in which Go's maps with the given keys are walked.
pub record World : Type 0 where
  pub now : ℕ
  pub readable : Bool
  pub order : List Text → List Text
  pub same_members : (xs : List Text) (v : Text) → contains (order xs) v ≡ contains xs v

pub data EngineError : Type 0 where
  store_failed : StoreError → EngineError
  apply_failed : EngineError

unfoldable pub load_users : List ℤ → Disk → Map ℤ BlockList → Result StoreError (Map ℤ BlockList)
load_users [] d lists = ok lists
load_users (uid ∷ uids) d lists =
    load (user_scope uid) d >>= λ bl. load_users uids d (insert uid bl lists)

-- `loadAll`, where no request changes the store between its reads.
unfoldable pub load_all : World → Disk → Result StoreError (BlockList × Map ℤ BlockList)
unfolding load_users
load_all w d = do
  global ← load global_scope d
  uids ← list_user_uids w.readable d
  lists ← load_users uids d []
  ok (global, lists)

-- Setting keys of a `map[string]bool`.
unfoldable pub add_all : List Text → List Text → List Text
add_all [] set = set
add_all (v ∷ vs) set = add_all vs (if contains set v then set else v ∷ set)

add_lists : Map ℤ BlockList → List Text → List Text
unfolding add_all
add_lists [] set = set
add_lists ((uid, bl) ∷ lists) set = add_lists lists (add_all bl.domains set)

unfoldable pub wanted_domains : BlockList → Map ℤ BlockList → List Text
unfolding add_lists
wanted_domains global lists = add_lists lists (add_all global.domains [])

unfoldable pub needs_resolving : ResolveMode → ℕ → Option CacheEntry → Bool
needs_resolving mode now none = true
needs_resolving resolve_all now (some e) = true
needs_resolving resolve_expired now (some e) = ltb e.expires now
needs_resolving resolve_missing now (some e) = false

unfoldable pub select : ResolveMode → ℕ → Cache → List Text → List Text
unfolding needs_resolving
select mode now cache [] = []
select mode now cache (d ∷ ds) =
    let rest = select mode now cache ds in
    if needs_resolving mode now (lookup d cache) then d ∷ rest else rest

unfoldable pub domains_to_resolve : World → List Text → ResolveMode → Cache → List Text
unfolding select
domains_to_resolve w wanted mode cache = select mode w.now cache (w.order wanted)

-- One address in its canonical text, `To4` first.
unfoldable pub add_address : Option Ip4 → Ip → IpSet → IpSet
unfolding add_all
add_address (some q) ip set = record set { v4 = add_all (v4_string q ∷ []) set.v4 }
add_address none ip set = record set { v6 = add_all (ip_string ip ∷ []) set.v6 }

unfoldable pub add_parsed : Option Ip → IpSet → IpSet
unfolding add_address
add_parsed none set = set
add_parsed (some ip) set = add_address (to4 ip) ip set

unfoldable pub add_ip : Text → IpSet → IpSet
unfolding add_parsed
add_ip ip set = add_parsed (parse_ip ip) set

unfoldable pub add_listed : List Text → IpSet → IpSet
unfolding add_ip
add_listed [] set = set
add_listed (ip ∷ ips) set = add_listed ips (add_ip ip set)

unfoldable pub add_entry : Option CacheEntry → IpSet → IpSet
unfolding add_all
add_entry none set = set
add_entry (some e) set = record { v4 = add_all e.res.v4 set.v4; v6 = add_all e.res.v6 set.v6 }

unfoldable pub add_resolved : Cache → List Text → IpSet → IpSet
unfolding add_entry
add_resolved cache [] set = set
add_resolved cache (d ∷ ds) set = add_resolved cache ds (add_entry (lookup d cache) set)

unfoldable pub ip_set_for : World → Cache → BlockList → IpSet
unfolding add_listed add_resolved
ip_set_for w cache bl =
    let set = add_resolved cache bl.domains (add_listed bl.ips (record { v4 = []; v6 = [] })) in
    record { v4 = w.order set.v4; v6 = w.order set.v6 }

-- The loop that deletes what is not wanted from the cache.
unfoldable pub prune : List Text → List Text → Cache → Cache
prune wanted [] cache = cache
prune wanted (d ∷ ds) cache = prune wanted ds (if contains wanted d then cache else delete d cache)

unfoldable pub user_sets : World → Cache → Map ℤ BlockList → Map ℤ IpSet → Map ℤ IpSet
unfolding ip_set_for
user_sets w cache [] m = m
user_sets w cache ((uid, bl) ∷ lists) m =
    let set = ip_set_for w cache bl in
    user_sets w cache lists (if is_empty set then m else insert uid set m)

unfoldable pub desired : World → Cache → BlockList → Map ℤ BlockList → State
unfolding ip_set_for user_sets
desired w cache global lists = record {
  global = ip_set_for w cache global;
  per_user = user_sets w cache lists [];
}

unfoldable pub cache_results : ℕ → Map Text Resolved → Cache → Cache
cache_results expires [] cache = cache
cache_results expires ((d, r) ∷ rs) cache =
    cache_results expires rs (insert d (record { res = r; expires = expires }) cache)
