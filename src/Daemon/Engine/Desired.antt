-- ===== src/Daemon/Engine/Desired.antt =====
-- `ipSetForLocked`, `wantedDomains` and the cache, by membership.
use request_blocker.Shared.{
  Bool, false, ◌||◌, Option, none, some, List, [], ◌∷◌, ◌≡◌, ◌∙◌, refl, arith, list_eq, nat_eq,
  list_beq_iff, ◌==◌, contains, contains-nil, contains-cons, lookup, Bool-cases, inl, inr,
}
use request_blocker.Text.{Text, int_eq}
use request_blocker.Store.BlockList.{BlockList}
use request_blocker.Validate.Address.{Ip, Ip4, parse_ip, to4, v4_string, ip_string}
use request_blocker.Resolver.{Resolved}
use request_blocker.Backend.State.{Family, v4, v6, IpSet, addresses}
use request_blocker.Daemon.Engine.Tables.{
  Cache, CacheEntry, World, add_all, add_address, add_parsed, add_ip, add_listed, add_entry,
  add_resolved, ip_set_for,
}

contains-add_all :
    (vs set : List Text) (x : Text)
    → contains (add_all vs set) x ≡ (contains vs x || contains set x)
unfolding add_all
contains-add_all [] set x = rw contains-nil
contains-add_all (v ∷ vs) set x = elim (Bool-cases (contains set v)) [
  | inl old ↦
      rw old (contains-add_all vs set x ∙ ground (arith, contains-cons v vs x, list_beq_iff v x))
  | inr new ↦ rw new (
      contains-add_all vs (v ∷ set) x ∙ ground (arith, contains-cons v vs x, contains-cons v set x))
]

abbrev pub names_address : Family → Text → Ip → Option Ip4 → Bool
names_address v4 x ip (some q) = v4_string q == x
names_address v4 x ip none = false
names_address v6 x ip (some q) = false
names_address v6 x ip none = ip_string ip == x

abbrev pub names_parsed : Family → Text → Option Ip → Bool
names_parsed f x none = false
names_parsed f x (some ip) = names_address f x ip (to4 ip)

-- A text names an address of a family if it parses to one that prints as `x`.
abbrev pub names : Family → Text → Text → Bool
names f x ip = names_parsed f x (parse_ip ip)

abbrev pub any_names : Family → Text → List Text → Bool
any_names f x [] = false
any_names f x (ip ∷ ips) = names f x ip || any_names f x ips

abbrev pub family_of : Family → Resolved → List Text
family_of v4 r = r.v4
family_of v6 r = r.v6

-- The cached addresses of a domain.
abbrev pub resolves : Family → Text → Option CacheEntry → Bool
resolves f x none = false
resolves f x (some e) = contains (family_of f e.res) x

abbrev pub any_resolves : Family → Text → Cache → List Text → Bool
any_resolves f x cache [] = false
any_resolves f x cache (d ∷ ds) = resolves f x (lookup d cache) || any_resolves f x cache ds

-- What a blocklist asks to block: the addresses it lists, and those its domains have in the cache.
abbrev pub blocks : Cache → BlockList → Family → Text → Bool
blocks cache bl f x = any_resolves f x cache bl.domains || any_names f x bl.ips

contains-add_one :
    (q : Text) (set : List Text) (x : Text)
    → contains (add_all (q ∷ []) set) x ≡ (q == x || contains set x)
contains-add_one q set x =
    contains-add_all (q ∷ []) set x ∙ ground (arith, contains-cons q [] x, contains-nil x)

contains-add_address :
    (o : Option Ip4) (ip : Ip) (set : IpSet) (f : Family) (x : Text)
    → contains (addresses f (add_address o ip set)) x
      ≡ (names_address f x ip o || contains (addresses f set) x)
unfolding add_address
contains-add_address (some q) ip set v4 x = contains-add_one (v4_string q) set.v4 x
contains-add_address (some q) ip set v6 x = refl
contains-add_address none ip set v4 x = refl
contains-add_address none ip set v6 x = contains-add_one (ip_string ip) set.v6 x

contains-add_parsed :
    (o : Option Ip) (set : IpSet) (f : Family) (x : Text)
    → contains (addresses f (add_parsed o set)) x
      ≡ (names_parsed f x o || contains (addresses f set) x)
unfolding add_parsed
contains-add_parsed none set f x = refl
contains-add_parsed (some ip) set f x = contains-add_address (to4 ip) ip set f x

contains-add_listed :
    (ips : List Text) (set : IpSet) (f : Family) (x : Text)
    → contains (addresses f (add_listed ips set)) x
      ≡ (any_names f x ips || contains (addresses f set) x)
unfolding add_listed
contains-add_listed [] set f x = refl
contains-add_listed (ip ∷ ips) set f x = contains-add_listed ips (add_ip ip set) f x ∙ step
  where
    step :
        (any_names f x ips || contains (addresses f (add_ip ip set)) x)
        ≡ ((names f x ip || any_names f x ips) || contains (addresses f set) x)
    step = unfold add_ip in ground (arith, contains-add_parsed (parse_ip ip) set f x)

contains-add_entry :
    (o : Option CacheEntry) (set : IpSet) (f : Family) (x : Text)
    → contains (addresses f (add_entry o set)) x ≡ (resolves f x o || contains (addresses f set) x)
unfolding add_entry
contains-add_entry none set f x = refl
contains-add_entry (some e) set v4 x = contains-add_all e.res.v4 set.v4 x
contains-add_entry (some e) set v6 x = contains-add_all e.res.v6 set.v6 x

contains-add_resolved :
    (cache : Cache) (ds : List Text) (set : IpSet) (f : Family) (x : Text)
    → contains (addresses f (add_resolved cache ds set)) x
      ≡ (any_resolves f x cache ds || contains (addresses f set) x)
unfolding add_resolved
contains-add_resolved cache [] set f x = refl
contains-add_resolved cache (d ∷ ds) set f x =
    contains-add_resolved cache ds (add_entry (lookup d cache) set) f x
    ∙ ground (arith, contains-add_entry (lookup d cache) set f x)

-- The set that is built for a list holds exactly what the list blocks.
pub contains-ip_set_for :
    (w : World) (cache : Cache) (bl : BlockList) (f : Family) (x : Text)
    → contains (addresses f (ip_set_for w cache bl)) x ≡ blocks cache bl f x
unfolding ip_set_for
contains-ip_set_for w cache bl f x = ordered f ∙ both ∙ ground (arith, start f)
  where
    listed : IpSet
    listed = add_listed bl.ips (record { v4 = []; v6 = [] })

    built : IpSet
    built = add_resolved cache bl.domains listed

    ordered :
        (g : Family)
        → contains (addresses g (ip_set_for w cache bl)) x ≡ contains (addresses g built) x
    ordered v4 = w.same_members built.v4 x
    ordered v6 = w.same_members built.v6 x

    both :
        contains (addresses f built) x
        ≡ (any_resolves f x cache bl.domains || contains (addresses f listed) x)
    both = contains-add_resolved cache bl.domains listed f x

    empty : (g : Family) → contains (addresses g (record { v4 = []; v6 = [] })) x ≡ false
    empty v4 = contains-nil x
    empty v6 = contains-nil x

    start : (g : Family) → contains (addresses g listed) x ≡ any_names g x bl.ips
    start g = contains-add_listed bl.ips (record { v4 = []; v6 = [] }) g x ∙ ground (arith, empty g)
