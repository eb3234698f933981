-- ===== src/Validate/Address/Parse.antt =====
-- `net.ParseIP` and `IP.To4` of Go's library. An address is its eight groups of 16 bits.
use request_blocker.Shared.{
  ℕ, zero, suc, ◌+◌, ◌-◌, ◌*◌, ◌/◌, ◌%◌, ◌||◌, ◌&&◌, not, Option, none, some, List, [], ◌∷◌, ◌++◌,
  nat_eq, ◌==◌, contains, length, ltb, leb, is_some, if◌then◌else◌,
}
use request_blocker.Text.{Text, take, drop}

abbrev pub Ip : Type 0
Ip = List ℕ

pub record Ip4 : Type 0 where
  pub a : ℕ
  pub b : ℕ
  pub c : ℕ
  pub d : ℕ

-- The IPv4 address in the form of sixteen bytes that `ParseIP` returns.
abbrev pub from4 : Ip4 → Ip
from4 q = 0 ∷ 0 ∷ 0 ∷ 0 ∷ 0 ∷ 0xffff ∷ (q.a * 256 + q.b) ∷ (q.c * 256 + q.d) ∷ []

unfoldable pub to4 : Ip → Option Ip4
to4 (g0 ∷ g1 ∷ g2 ∷ g3 ∷ g4 ∷ g5 ∷ g6 ∷ g7 ∷ []) =
    if g0 == 0 && g1 == 0 && g2 == 0 && g3 == 0 && g4 == 0 && g5 == 0xffff
    then some (record { a = g6 / 256; b = g6 % 256; c = g7 / 256; d = g7 % 256 })
    else none
to4 _ = none

-- The loop over the characters of a dotted address: the value and the number of digits of the
-- current field, and the fields before it.
unfoldable pub v4_fields : Text → ℕ → ℕ → List ℕ → Option (List ℕ)
v4_fields [] val dig_len done =
    if dig_len == 0 || not (length done == 3) then none else some (done ++ val ∷ [])
v4_fields (ch ∷ s) val dig_len done =
    let digit = v4_fields s (val * 10 + (ch - b'0')) (dig_len + 1) done in
    let dot = v4_fields s 0 0 (done ++ val ∷ []) in
    if leb b'0' ch && leb ch b'9'
    then (if (dig_len == 1 && val == 0) || ltb 255 (val * 10 + (ch - b'0')) then none else digit)
    else if ch == b'.'
    then (if dig_len == 0 || length done == 3 then none else dot)
    else none

unfoldable pub hex_value : ℕ → Option ℕ
hex_value ch =
    if leb b'0' ch && leb ch b'9'
    then some (ch - b'0')
    else if leb b'a' ch && leb ch b'f'
    then some (ch - b'a' + 10)
    else if leb b'A' ch && leb ch b'F'
    then some (ch - b'A' + 10)
    else none

-- A group of up to four hexadecimal digits: its value, the number of digits and the rest.
unfoldable pub read_hex : Text → ℕ → ℕ → Option (ℕ × ℕ × Text)
unfolding hex_value
read_hex [] off acc = some (acc, off, [])
read_hex (ch ∷ s) off acc = elim (hex_value ch) [
  | none ↦ some (acc, off, ch ∷ s)
  | some h ↦
      let more = read_hex s (off + 1) (acc * 16 + h) in
      if ltb 3 off || ltb 0xffff (acc * 16 + h) then none else more
]

-- The groups read, the place of the `::` among them, and the text that is left.
abbrev pub Groups : Type 0
Groups = List ℕ × Option ℕ × Text

-- An IPv4 address in the place of the last two groups.
unfoldable pub v6_dotted : Text → List ℕ → Option ℕ → Option Groups
unfolding v4_fields
v6_dotted s done ellipsis =
    if (not (is_some ellipsis) && not (length done == 6)) || ltb 6 (length done)
    then none
    else elim (v4_fields s 0 0 []) [
      | some (a ∷ b ∷ c ∷ d ∷ []) ↦ some (done ++ (a * 256 + b) ∷ (c * 256 + d) ∷ [], ellipsis, [])
      | _ ↦ none
    ]

-- What follows a group: the end, a dot, or a colon and more. `next` is the rest of the loop.
unfoldable pub v6_after :
    Text → List ℕ → Option ℕ → ℕ → Text → (Text → List ℕ → Option ℕ → Option Groups) → Option Groups
unfolding v6_dotted
v6_after s done ellipsis acc [] next = some (done ++ acc ∷ [], ellipsis, [])
v6_after s done ellipsis acc (ch ∷ []) next = if ch == b'.' then v6_dotted s done ellipsis else none
v6_after s done ellipsis acc (ch ∷ ch' ∷ t) next =
    let groups = done ++ acc ∷ [] in
    if ch == b'.'
    then v6_dotted s done ellipsis
    else if not (ch == b':')
    then none
    else if not (ch' == b':')
    then next (ch' ∷ t) groups ellipsis
    else if is_some ellipsis
    then none
    else if length t == 0
    then some (groups, some (length groups), [])
    else next t groups (some (length groups))

-- The loop of `parseIPv6`, over the number of groups that still fit.
unfoldable pub v6_groups : ℕ → Text → List ℕ → Option ℕ → Option Groups
unfolding read_hex v6_after
v6_groups zero s done ellipsis = some (done, ellipsis, s)
v6_groups (suc k) s done ellipsis = elim (read_hex s 0 0) [
  | none ↦ none
  | some (acc, off, rest) ↦
      if off == 0
      then none
      else v6_after s done ellipsis acc rest (λ t groups e. v6_groups k t groups e)
]

abbrev pub zeros : ℕ → List ℕ
zeros zero = []
zeros (suc n) = 0 ∷ zeros n

-- The `::` stands for at least one group of zeros.
unfoldable pub expand : Groups → Option Ip
expand (done, ellipsis, ch ∷ s) = none
expand (done, none, []) = if length done == 8 then some done else none
expand (done, some e, []) =
    if ltb (length done) 8
    then some (take e done ++ zeros (8 - length done) ++ drop e done)
    else none

abbrev pub finish : Option Groups → Option Ip
finish none = none
finish (some g) = expand g

unfoldable pub parse_v6 : Text → Option Ip
unfolding v6_groups expand
parse_v6 (ch ∷ ch' ∷ s) =
    let after = if length s == 0 then some (zeros 8) else finish (v6_groups 8 s [] (some 0)) in
    let plain = finish (v6_groups 8 (ch ∷ ch' ∷ s) [] none) in
    if ch == b':' && ch' == b':' then after else plain
parse_v6 s = finish (v6_groups 8 s [] none)

unfoldable pub parse_v4 : Text → Option Ip
unfolding v4_fields
parse_v4 s = elim (v4_fields s 0 0 []) [
  | some (a ∷ b ∷ c ∷ d ∷ []) ↦ some (from4 (record { a = a; b = b; c = c; d = d }))
  | _ ↦ none
]

-- The first separator tells which kind of address a text may be.
unfoldable pub parse_by : Text → Text → Option Ip
unfolding parse_v4 parse_v6
parse_by s [] = none
parse_by s (ch ∷ t) =
    let later = parse_by s t in
    if ch == b'.'
    then parse_v4 s
    else if ch == b':'
    then (if contains s b'%' then none else parse_v6 s)
    else if ch == b'%'
    then none
    else later

unfoldable pub parse_ip : Text → Option Ip
unfolding parse_by
parse_ip s = parse_by s s
