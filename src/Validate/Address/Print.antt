-- ===== src/Validate/Address/Print.antt =====
-- `IP.String` of Go's library, and `NormalizeIP` of internal/validate/validate.go.
use request_blocker.Shared.{
  ℕ, suc, ◌+◌, ◌-◌, ◌/◌, ◌%◌, Bool, true, false, ◌&&◌, none, some, List, [], ◌∷◌, ◌++◌, map, nat_eq,
  ◌==◌, ltb, leb, Result, ok, err, if◌then◌else◌,
}
use request_blocker.Text.{Text, codes, pos, itoa, trim_space, take, drop, join}
use request_blocker.Validate.Address.Parse.{Ip, Ip4, to4, parse_ip}

unfoldable pub hex_digit : ℕ → ℕ
hex_digit n = if ltb n 10 then b'0' + n else b'a' + (n - 10)

-- Lower case, with no leading zero.
unfoldable pub hex : ℕ → Text
unfolding hex_digit
hex n =
    let last = hex_digit (n % 16) ∷ [] in
    let three = hex_digit (n / 16 % 16) ∷ last in
    let two = hex_digit (n / 256 % 16) ∷ three in
    if ltb n 0x10
    then last
    else if ltb n 0x100
    then three
    else if ltb n 0x1000
    then two
    else hex_digit (n / 4096) ∷ two

unfoldable pub zero_run : List ℕ → ℕ
zero_run [] = 0
zero_run (g ∷ gs) = let more = suc (zero_run gs) in if g == 0 then more else 0

-- The first of the longest runs of two or more zero groups: its start and its length.
unfoldable pub best_run : List ℕ → ℕ → ℕ × ℕ → ℕ × ℕ
unfolding zero_run
best_run [] i best = best
best_run (g ∷ gs) i best =
    let l = zero_run (g ∷ gs) in
    best_run gs (i + 1) (if leb 2 l && ltb best.1 l then (i, l) else best)

unfoldable pub v6_string : Ip → Text
unfolding hex best_run
v6_string gs =
    let (start, l) = best_run gs 0 (0, 0) in
    if l == 0
    then join (map hex gs) (codes ":")
    else join (map hex (take start gs)) (codes ":")
      ++ codes "::"
      ++ join (map hex (drop (start + l) gs)) (codes ":")

unfoldable pub v4_string : Ip4 → Text
v4_string q =
    join (itoa (pos q.a) ∷ itoa (pos q.b) ∷ itoa (pos q.c) ∷ itoa (pos q.d) ∷ []) (codes ".")

unfoldable pub ip_string : Ip → Text
unfolding v4_string v6_string to4
ip_string ip = elim (to4 ip) [ some q ↦ v4_string q | none ↦ v6_string ip ]

pub data AddressError : Type 0 where
  invalid_address : Text → AddressError

-- The canonical text, and whether it is an IPv6 address.
unfoldable pub normalize_ip : Text → Result AddressError (Text × Bool)
normalize_ip input = elim (parse_ip (trim_space input)) [
  | none ↦ err (invalid_address input)
  | some ip ↦ elim (to4 ip) [ some q ↦ ok (v4_string q, false) | none ↦ ok (ip_string ip, true) ]
]
