-- ===== src/Validate/Address/Printed6.antt =====
-- IPv6 addresses: what `String` prints, `ParseIP` reads back.
use request_blocker.Shared.{
  ℕ, zero, suc, ◌+◌, ◌-◌, ◌≤◌, ◌≡◌, ◌∙◌, refl, sym, ap, ap₂, true, false, none, some, List, [], ◌∷◌,
  ◌++◌, append-nil, append_assoc, nat_eq, ◌==◌, All, ltb, length, length-append, arith, Bool-cases,
  inl, inr, if◌then◌else◌,
}
use request_blocker.Text.{Text, codes, take, drop, take-append, join}
use request_blocker.Validate.Address.Parse.{Ip, zeros, expand, finish, v6_groups, parse_v6}
use request_blocker.Validate.Address.Print.{best_run, v6_string}
use request_blocker.Validate.Address.Hex.{IsHexDigit}
use request_blocker.Validate.Address.Groups.{
  IsGroup, colons, after_gap, colons-first, v6_groups-colons, groups_gap,
}
use request_blocker.Validate.Address.Runs.{IsBest, best_run-IsBest, drop-append}

-- The text around the run that is left out.
abbrev pub gap_text : List ℕ → List ℕ → Text
gap_text before behind = colons before ++ b':' ∷ b':' ∷ colons behind

plain_start :
    (c : ℕ) (t : Text) → IsHexDigit c → parse_v6 (c ∷ t) ≡ finish (v6_groups 8 (c ∷ t) [] none)
unfolding parse_v6
plain_start c [] h = refl
plain_start c (c' ∷ t) h = ground (arith, h)

gap_start : (t : Text) → parse_v6 (b':' ∷ b':' ∷ t) ≡ finish (after_gap 8 t [])
unfolding parse_v6 expand take drop
gap_start t = elim (Bool-cases (length t == 0)) [
  | inl ends ↦ rw ends refl
  | inr goes_on ↦ rw goes_on refl
]

after_more :
    (k c : ℕ) (t : Text) (groups : List ℕ)
    → after_gap k (c ∷ t) groups ≡ v6_groups k (c ∷ t) groups (some (length groups))
after_more k c t groups = ground arith

gap_rest :
    (k : ℕ) (before behind : List ℕ)
    → length behind ≤ k
    → All IsGroup behind
    → after_gap k (colons behind) before ≡ some (before ++ behind, some (length before), [])
unfolding join
gap_rest k before [] h all = ap (λ x. some (x, some (length before), [])) (sym (append-nil before))
gap_rest k before (g ∷ gs) h all =
    let (c, t, digit, is) = colons-first g gs [] all.0 in
    let is' : colons (g ∷ gs) ≡ c ∷ t = sym (append-nil (colons (g ∷ gs))) ∙ is in
    ap (λ x. after_gap k x before) is'
    ∙ after_more k c t before
    ∙ ap (λ x. v6_groups k x before (some (length before))) (sym is')
    ∙ v6_groups-colons k g gs before (some (length before)) h all

-- The printed groups with the gap are read as the groups around it.
parse_gap :
    (before behind : List ℕ)
    → length before + length behind ≤ 8
    → All IsGroup before
    → All IsGroup behind
    → parse_v6 (gap_text before behind) ≡ expand (before ++ behind, some (length before), [])
unfolding join
parse_gap [] behind h all rest =
    gap_start (colons behind) ∙ ap finish (gap_rest 8 [] behind (omega (arith, h)) rest)
parse_gap (g ∷ gs) behind h all rest =
    let (c, t, digit, is) = colons-first g gs (b':' ∷ b':' ∷ colons behind) all.0 in
    ap parse_v6 is
    ∙ plain_start c t digit
    ∙ ap (λ x. finish (v6_groups 8 x [] none)) (sym is)
    ∙ ap finish (groups_gap 8 g gs [] (colons behind) (omega (arith, h)) all)
    ∙ ap finish (gap_rest (8 - length (g ∷ gs)) (g ∷ gs) behind (omega (arith, h)) rest)

expand_gap :
    (before behind : List ℕ) (l : ℕ)
    → 1 ≤ l
    → length before + l + length behind ≡ 8
    → expand (before ++ behind, some (length before), []) ≡ some (before ++ (zeros l ++ behind))
unfolding expand drop
expand_gap before behind l one whole =
    let len = length-append before behind in
    let cut : drop (length before) (before ++ behind) ≡ behind =
      ap (λ n. drop n (before ++ behind)) (sym (add_zero (length before)))
      ∙ drop-append before behind 0 in
    let fits : ltb (length (before ++ behind)) 8 ≡ true = ground (arith, len) in
    let missing : 8 - length (before ++ behind) ≡ l = omega (arith, len) in
    rw fits (
      ap some (
        append_assoc (take (length before) (before ++ behind)) _ _
        ∙ ap₂ (λ a b. a ++ b) (take-append before behind (length before) refl)
            (ap₂ (λ n b. zeros n ++ b) missing cut)))
  where
    add_zero : (n : ℕ) → n + 0 ≡ n
    add_zero n = omega arith

-- `String` with the run that it has found.
abbrev pub v6_text : List ℕ → ℕ × ℕ → Text
v6_text gs (start, l) = if l == 0 then colons gs else gap_text (take start gs) (drop (start + l) gs)

parse_plain : (gs : List ℕ) → length gs ≡ 8 → All IsGroup gs → parse_v6 (colons gs) ≡ some gs
unfolding expand
parse_plain [] h all = absurd (omega (arith, h))
parse_plain (g ∷ gs) h all =
    let (c, t, digit, is) = colons-first g gs [] all.0 in
    let is' : colons (g ∷ gs) ≡ c ∷ t = sym (append-nil (colons (g ∷ gs))) ∙ is in
    ap parse_v6 is'
    ∙ plain_start c t digit
    ∙ ap (λ x. finish (v6_groups 8 x [] none)) (sym is')
    ∙ ap finish (v6_groups-colons 8 g gs [] none (omega (arith, h)) all)
    ∙ ground (arith, h)

pub All-take : (gs : List ℕ) (n : ℕ) → All IsGroup gs → All IsGroup (take n gs)
unfolding take
All-take gs zero all = tt
All-take [] (suc n) all = tt
All-take (g ∷ gs) (suc n) (h, all) = (h, All-take gs n all)

pub All-drop : (gs : List ℕ) (n : ℕ) → All IsGroup gs → All IsGroup (drop n gs)
unfolding drop
All-drop gs zero all = all
All-drop [] (suc n) all = tt
All-drop (g ∷ gs) (suc n) (h, all) = All-drop gs n all

pub length-zeros : (n : ℕ) → length (zeros n) ≡ n
length-zeros zero = refl
length-zeros (suc n) = omega (arith, length-zeros n)

length-whole :
    (before behind : List ℕ) (l : ℕ)
    → length (before ++ (zeros l ++ behind)) ≡ length before + l + length behind
length-whole before behind l = omega (
  arith,
  length-append before (zeros l ++ behind),
  length-append (zeros l) behind,
  length-zeros l,
)

parse_text :
    (gs : List ℕ) (run : ℕ × ℕ)
    → IsBest gs run
    → length gs ≡ 8
    → All IsGroup gs
    → parse_v6 (v6_text gs run) ≡ some gs
parse_text gs (start, l) (inl none_left) h all = rw none_left (parse_plain gs h all)
parse_text gs (start, l) (inr run) h all =
    let before = take start gs in
    let behind = drop (start + l) gs in
    let whole : length before + l + length behind ≡ 8 =
      sym (length-whole before behind l) ∙ ap length (sym run.whole) ∙ h in
    let some_left : (l == 0) ≡ false = ground (arith, run.two) in
    rw some_left (
      parse_gap before behind (omega (arith, whole)) (All-take gs start all)
        (All-drop gs (start + l) all)
      ∙ expand_gap before behind l (omega (arith, run.two)) whole
      ∙ ap some (sym run.whole))

pub v6_string-v6_text : (gs : Ip) → v6_string gs ≡ v6_text gs (best_run gs 0 (0, 0))
unfolding v6_string
v6_string-v6_text gs = elim (Bool-cases ((best_run gs 0 (0, 0)).1 == 0)) [
  | inl none_left ↦ rw none_left refl
  | inr some_left ↦ rw some_left (append_assoc _ (codes "::") _)
]

pub parse_v6-v6_string :
    (gs : Ip) → length gs ≡ 8 → All IsGroup gs → parse_v6 (v6_string gs) ≡ some gs
parse_v6-v6_string gs h all =
    ap parse_v6 (v6_string-v6_text gs)
    ∙ parse_text gs (best_run gs 0 (0, 0)) (best_run-IsBest gs) h all
