-- ===== src/Resolver.antt =====
-- internal/resolver/resolver.go. The answers of DNS are a parameter.
pub mod Order
pub mod Pool
pub mod Tests
use request_blocker.Shared.{
  Bool, true, false, ◌||◌, Option, none, some, List, [], ◌∷◌, ◌++◌, list_eq, nat_eq, contains, sort,
  Map, insert, if◌then◌else◌,
}
use request_blocker.Text.{Text, text_ord}
use request_blocker.Validate.Address.{Ip, to4, v4_string, ip_string}

pub record Resolved : Type 0 where
  pub v4 : List Text
  pub v6 : List Text

-- `LookupIP` at one time: the addresses of a name, or an error.
abbrev pub Dns : Type 0
Dns = Text → Option (List Ip)

distinct : List Text → List Text → List Text
distinct [] seen = []
distinct (v ∷ vs) seen =
    let skip = distinct vs seen in
    let keep = v ∷ distinct vs (v ∷ seen) in if contains seen v then skip else keep

unfoldable pub sorted_unique : List Text → List Text
unfolding distinct
sorted_unique xs = sort (distinct xs [])

-- The loop over the addresses.
partition : List Ip → Resolved → Resolved
partition [] res = res
partition (ip ∷ ips) res = partition ips (elim (to4 ip) [
  | some q ↦ record res { v4 = res.v4 ++ v4_string q ∷ [] }
  | none ↦ record res { v6 = res.v6 ++ ip_string ip ∷ [] }
])

unfoldable pub resolve : Dns → Text → Option Resolved
unfolding partition sorted_unique
resolve dns domain = elim (dns domain) [
  | none ↦ none
  | some ips ↦
      let res = partition ips (record { v4 = []; v6 = [] }) in
      some (record { v4 = sorted_unique res.v4; v6 = sorted_unique res.v6 })
]

-- One item of the channel `out`.
pub record Outcome : Type 0 where
  pub domain : Text
  pub res : Option Resolved

pub record Outcomes : Type 0 where
  pub results : Map Text Resolved
  pub failures : List Text

-- The loop that reads the channel: a domain without a result goes to the failures.
pub collect : List Outcome → Outcomes → Outcomes
collect [] o = o
collect (x ∷ xs) o = collect xs (elim x.res [
  | none ↦ record o { failures = x.domain ∷ o.failures }
  | some r ↦ record o { results = insert x.domain r o.results }
])

abbrev pub outcome : Dns → Text → Outcome
outcome dns d = record { domain = d; res = resolve dns d }

pub outcomes : Dns → List Text → List Outcome
outcomes dns [] = []
outcomes dns (d ∷ ds) = outcome dns d ∷ outcomes dns ds

-- The workers send one outcome for each domain, in any order; `arrival` is that order.
unfoldable pub resolve_many : Dns → List Text → Outcomes
unfolding collect outcomes
resolve_many dns arrival = collect (outcomes dns arrival) (record { results = []; failures = [] })
