-- ===== src/Validate/Address/Groups.antt =====
-- The loop of `parseIPv6` on groups that `String` has printed between colons.
use request_blocker.Shared.{
  ℕ, zero, suc, ◌-◌, ◌≤◌, ◌<◌, ◌≡◌, ◌≢◌, ◌∙◌, refl, sym, ap, ap₂, Option, none, some, List, [], ◌∷◌,
  ◌++◌, append-nil, append_assoc, map, nat_eq, ◌==◌, All, length, arith, if◌then◌else◌,
}
use request_blocker.Text.{Text, codes, join}
use request_blocker.Validate.Address.Parse.{Groups, hex_value, v6_after, v6_groups}
use request_blocker.Validate.Address.Print.{hex}
use request_blocker.Validate.Address.Hex.{IsHexDigit, IsAfterGroup, read_hex-hex, hex-digits}

-- A group of 16 bits.
abbrev pub IsGroup : ℕ → Type 0
IsGroup g = g < 0x10000

abbrev pub colons : List ℕ → Text
colons gs = join (map hex gs) (codes ":")

colon_ends : (t : Text) → IsAfterGroup (b':' ∷ t)
colon_ends t = unfold hex_value in refl

read_one :
    (k g : ℕ) (rest : Text) (done : List ℕ) (e : Option ℕ)
    → IsGroup g
    → IsAfterGroup rest
    → v6_groups (suc k) (hex g ++ rest) done e
      ≡ v6_after (hex g ++ rest) done e g rest (λ t groups e'. v6_groups k t groups e')
unfolding v6_groups
read_one k g rest done e h after =
    let (len, some_digit, read) = read_hex-hex g rest h after in
    rw (read, v6_groups) (ground (arith, some_digit))

group_end :
    (k g : ℕ) (done : List ℕ) (e : Option ℕ)
    → IsGroup g
    → v6_groups (suc k) (hex g) done e ≡ some (done ++ g ∷ [], e, [])
unfolding v6_after
group_end k g done e h =
    ap (λ t. v6_groups (suc k) t done e) (sym (append-nil (hex g))) ∙ read_one k g [] done e h tt

group_colon :
    (k g c : ℕ) (t : Text) (done : List ℕ) (e : Option ℕ)
    → IsGroup g
    → IsHexDigit c
    → v6_groups (suc k) (hex g ++ b':' ∷ c ∷ t) done e ≡ v6_groups k (c ∷ t) (done ++ g ∷ []) e
unfolding v6_after
group_colon k g c t done e h digit =
    read_one k g (b':' ∷ c ∷ t) done e h (colon_ends (c ∷ t)) ∙ ground (arith, digit)

-- What follows the `::`.
abbrev pub after_gap : ℕ → Text → List ℕ → Option Groups
after_gap k t groups =
    if length t == 0
    then some (groups, some (length groups), [])
    else v6_groups k t groups (some (length groups))

group_gap :
    (k g : ℕ) (t : Text) (done : List ℕ)
    → IsGroup g
    → v6_groups (suc k) (hex g ++ b':' ∷ b':' ∷ t) done none ≡ after_gap k t (done ++ g ∷ [])
unfolding v6_after
group_gap k g t done h = read_one k g (b':' ∷ b':' ∷ t) done none h (colon_ends (b':' ∷ t)) ∙ refl

-- A printed group starts with a digit.
pub colons-first :
    (g : ℕ) (gs : List ℕ) (rest : Text)
    → IsGroup g
    → (c : ℕ) × (t : Text) × IsHexDigit c × (colons (g ∷ gs) ++ rest ≡ c ∷ t)
unfolding join
colons-first g gs rest h = go gs (hex g) (hex-digits g h)
  where
    go :
        (gs : List ℕ) (digits : Text)
        → All IsHexDigit digits × (digits ≢ [])
        → (c : ℕ) × (t : Text) × IsHexDigit c
          × (join (digits ∷ map hex gs) (codes ":") ++ rest ≡ c ∷ t)
    go gs [] (all, some_digit) = absurd (some_digit refl)
    go [] (c ∷ t) ((hc, all), some_digit) = (c, _, hc, refl)
    go (g' ∷ gs) (c ∷ t) ((hc, all), some_digit) = (c, _, hc, refl)

pub v6_groups-colons :
    (k g : ℕ) (gs done : List ℕ) (e : Option ℕ)
    → length (g ∷ gs) ≤ k
    → All IsGroup (g ∷ gs)
    → v6_groups k (colons (g ∷ gs)) done e ≡ some (done ++ g ∷ gs, e, [])
unfolding join
v6_groups-colons zero g gs done e h all = absurd (omega arith)
v6_groups-colons (suc k) g [] done e h (hg, all) = group_end k g done e hg
v6_groups-colons (suc k) g (g' ∷ gs) done e h (hg, all) =
    let (c, t, digit, is) = colons-first g' gs [] all.0 in
    let is' : colons (g' ∷ gs) ≡ c ∷ t = sym (append-nil (colons (g' ∷ gs))) ∙ is in
    ap (λ x. v6_groups (suc k) (hex g ++ b':' ∷ x) done e) is'
    ∙ group_colon k g c t done e hg digit
    ∙ ap (λ x. v6_groups k x (done ++ g ∷ []) e) (sym is')
    ∙ v6_groups-colons k g' gs (done ++ g ∷ []) e (omega (arith, h)) all
    ∙ ap (λ x. some (x, e, [])) (append_assoc done (g ∷ []) (g' ∷ gs))

pub groups_gap :
    (k g : ℕ) (gs done : List ℕ) (rest : Text)
    → length (g ∷ gs) ≤ k
    → All IsGroup (g ∷ gs)
    → v6_groups k (colons (g ∷ gs) ++ b':' ∷ b':' ∷ rest) done none
      ≡ after_gap (k - length (g ∷ gs)) rest (done ++ g ∷ gs)
unfolding join
groups_gap zero g gs done rest h all = absurd (omega arith)
groups_gap (suc k) g [] done rest h (hg, all) =
    group_gap k g rest done hg ∙ ap (λ n. after_gap n rest (done ++ g ∷ [])) (omega arith)
groups_gap (suc k) g (g' ∷ gs) done rest h (hg, all) =
    let gap = b':' ∷ b':' ∷ rest in
    let (c, t, digit, is) = colons-first g' gs gap all.0 in
    ap (λ x. v6_groups (suc k) x done none) (append_assoc (hex g) (b':' ∷ colons (g' ∷ gs)) gap)
    ∙ ap (λ x. v6_groups (suc k) (hex g ++ b':' ∷ x) done none) is
    ∙ group_colon k g c t done none hg digit
    ∙ ap (λ x. v6_groups k x (done ++ g ∷ []) none) (sym is)
    ∙ groups_gap k g' gs (done ++ g ∷ []) rest (omega (arith, h)) all
    ∙ ap₂ (λ n x. after_gap n rest x) (omega arith) (append_assoc done (g ∷ []) (g' ∷ gs))
