-- ===== src/Validate/Address/WellFormed.antt =====
-- What `ParseIP` returns, whatever the text: eight groups of 16 bits.
use request_blocker.Shared.{
  ℕ, zero, suc, ◌+◌, ◌-◌, ◌<◌, ◌≡◌, true, ◌&&◌, Option, none, some, List, [], ◌∷◌, ◌++◌, nat_eq,
  ◌==◌, All, All-append, ltb, length, length-append, arith, contains,
}
use request_blocker.Text.{Text, take, drop}
use request_blocker.Validate.Address.Parse.{
  Ip, Groups, from4, v4_fields, v6_groups, zeros, expand, finish, parse_v6, parse_v4, parse_by,
  parse_ip,
}
use request_blocker.Validate.Address.Groups.{IsGroup}
use request_blocker.Validate.Address.Printed6.{length-zeros, All-take, All-drop}
use request_blocker.Validate.Address.Collected.{
  OnSome, on_if, IsOctet, v4_fields-octets, FitGroups, v6_groups-fits,
}

abbrev pub IsIp : Ip → Type 0
IsIp gs = (length gs ≡ 8) × All IsGroup gs

length-take-drop : (gs : List ℕ) (n : ℕ) → length (take n gs) + length (drop n gs) ≡ length gs
unfolding take drop
length-take-drop gs zero = omega arith
length-take-drop [] (suc n) = omega arith
length-take-drop (g ∷ gs) (suc n) = omega (arith, length-take-drop gs n)

zeros-groups : (n : ℕ) → All IsGroup (zeros n)
zeros-groups zero = tt
zeros-groups (suc n) = (omega arith, zeros-groups n)

expand-IsIp : (g : Groups) → FitGroups g → OnSome IsIp (expand g)
unfolding expand
expand-IsIp (done, e, ch ∷ s) (room, all) = tt
expand-IsIp (done, none, []) (room, all) =
    on_if IsIp (length done == 8) _ none (λ whole. (ground (arith, whole), all)) (λ short. tt)
expand-IsIp (done, some e, []) (room, all) =
    on_if IsIp (ltb (length done) 8) _ none
      (λ short. (
        omega (
          arith,
          ltb_lt short,
          length-take-drop done e,
          length-zeros (8 - length done),
          length-append (take e done) (zeros (8 - length done)),
          length-append (take e done ++ zeros (8 - length done)) (drop e done),
        ),
        All-append IsGroup (take e done ++ zeros (8 - length done)) _
            (All-append IsGroup (take e done) _ (All-take done e all)
              (zeros-groups (8 - length done)))
            (All-drop done e all),
      ))
      (λ full. tt)
  where
    ltb_lt : ltb (length done) 8 ≡ true → length done < 8
    ltb_lt h = ground (arith, h)

finish-IsIp : (g : Option Groups) → OnSome FitGroups g → OnSome IsIp (finish g)
finish-IsIp none h = tt
finish-IsIp (some g) h = expand-IsIp g h

plain-IsIp : (s : Text) (e : Option ℕ) → OnSome IsIp (finish (v6_groups 8 s [] e))
plain-IsIp s e = finish-IsIp (v6_groups 8 s [] e) (v6_groups-fits 8 s [] e (omega arith) tt)

parse_v6-IsIp : (s : Text) → OnSome IsIp (parse_v6 s)
unfolding parse_v6
parse_v6-IsIp [] = plain-IsIp [] none
parse_v6-IsIp (ch ∷ []) = plain-IsIp (ch ∷ []) none
parse_v6-IsIp (ch ∷ ch' ∷ s) =
    on_if IsIp (ch == b':' && ch' == b':') _ _
      (λ gap.
        on_if IsIp (length s == 0) _ _ (λ all. (omega arith, zeros-groups 8))
          (λ more. plain-IsIp s (some 0)))
      (λ plain. plain-IsIp (ch ∷ ch' ∷ s) none)

v4_groups :
    (a b c d : ℕ)
    → IsOctet a
    → IsOctet b
    → IsOctet c
    → IsOctet d
    → All IsGroup (from4 (record { a = a; b = b; c = c; d = d }))
v4_groups a b c d ha hb hc hd =
    let low : IsGroup 0 = omega arith in
    (
      low,
      (
        low,
        (low, (low, (low, (omega arith, (omega (arith, ha, hb), (omega (arith, hc, hd), tt)))))),
      ),
    )

parse_v4-IsIp : (s : Text) → OnSome IsIp (parse_v4 s)
unfolding parse_v4
parse_v4-IsIp s = go (v4_fields s 0 0 []) (v4_fields-octets s 0 0 [] (omega arith) tt)
  where
    go :
        (fields : Option (List ℕ))
        → OnSome (All IsOctet) fields
        → OnSome IsIp (elim fields as (λ _. Option Ip) [
          | some (a ∷ b ∷ c ∷ d ∷ []) ↦ some (from4 (record { a = a; b = b; c = c; d = d }))
          | _ ↦ none
        ])
    go none octets = tt
    go (some []) octets = tt
    go (some (a ∷ [])) octets = tt
    go (some (a ∷ b ∷ [])) octets = tt
    go (some (a ∷ b ∷ c ∷ [])) octets = tt
    go (some (a ∷ b ∷ c ∷ d ∷ [])) (ha, (hb, (hc, (hd, _)))) =
        (omega arith, v4_groups a b c d ha hb hc hd)
    go (some (a ∷ b ∷ c ∷ d ∷ x ∷ xs)) octets = tt

parse_by-IsIp : (s t : Text) → OnSome IsIp (parse_by s t)
unfolding parse_by
parse_by-IsIp s [] = tt
parse_by-IsIp s (ch ∷ t) =
    on_if IsIp (ch == b'.') _ _ (λ dot. parse_v4-IsIp s)
      (λ _.
        on_if IsIp (ch == b':') _ _
          (λ colon. on_if IsIp (contains s b'%') none _ (λ zone. tt) (λ _. parse_v6-IsIp s))
          (λ _. on_if IsIp (ch == b'%') none _ (λ zone. tt) (λ _. parse_by-IsIp s t)))

pub parse_ip-IsIp : (s : Text) → OnSome IsIp (parse_ip s)
unfolding parse_ip
parse_ip-IsIp s = parse_by-IsIp s s
