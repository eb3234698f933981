-- ===== src/Validate/Address/Collected.antt =====
-- The groups that the loops of `ParseIP` collect fit an address.
use request_blocker.Shared.{
  ℕ, zero, suc, ◌+◌, ◌-◌, ◌*◌, ◌≤◌, ◌<◌, ◌≡◌, refl, Bool, true, false, ◌||◌, ◌&&◌, not, Option,
  none, some, is_some, List, [], ◌∷◌, ◌++◌, nat_eq, ◌==◌, All, All-append, leb, ltb, length,
  length-append, arith, Option-cases, subst, inl, inr, if◌then◌else◌,
}
use request_blocker.Text.{Text}
use request_blocker.Validate.Address.Parse.{
  Groups, v4_fields, hex_value, read_hex, v6_dotted, v6_after, v6_groups,
}
use request_blocker.Validate.Address.Groups.{IsGroup}

abbrev pub OnSome : {A : Type 0} → (A → Type 0) → Option A → Type 0
OnSome P none = Unit
OnSome P (some x) = P x

pub on_if :
    {A : Type 0} (P : A → Type 0) (t : Bool) (x y : Option A)
    → (t ≡ true → OnSome P x)
    → (t ≡ false → OnSome P y)
    → OnSome P (if t then x else y)
on_if P true x y h k = h refl
on_if P false x y h k = k refl

abbrev pub IsOctet : ℕ → Type 0
IsOctet n = n < 256

pub All-snoc : (P : ℕ → Type 0) (xs : List ℕ) (x : ℕ) → All P xs → P x → All P (xs ++ x ∷ [])
All-snoc P xs x all h = All-append P xs (x ∷ []) all (h, tt)

pub v4_fields-octets :
    (s : Text) (val dig_len : ℕ) (done : List ℕ)
    → IsOctet val
    → All IsOctet done
    → OnSome (All IsOctet) (v4_fields s val dig_len done)
unfolding v4_fields
v4_fields-octets [] val dig_len done h all =
    on_if (All IsOctet) (dig_len == 0 || not (length done == 3)) none _ (λ e. tt)
      (λ e. All-snoc IsOctet done val all h)
v4_fields-octets (ch ∷ s) val dig_len done h all =
    on_if (All IsOctet) (leb b'0' ch && leb ch b'9') _ _
      (λ digit.
        on_if (All IsOctet) ((dig_len == 1 && val == 0) || ltb 255 (val * 10 + (ch - b'0'))) none _
          (λ e. tt)
          (λ fits.
            v4_fields-octets s (val * 10 + (ch - b'0')) (dig_len + 1) done (ground (arith, fits))
              all))
      (λ other.
        on_if (All IsOctet) (ch == b'.') _ none
          (λ dot.
            on_if (All IsOctet) (dig_len == 0 || length done == 3) none _ (λ e. tt)
              (λ more.
                v4_fields-octets s 0 0 (done ++ val ∷ []) (omega arith)
                  (All-snoc IsOctet done val all h)))
          (λ e. tt))

read_hex-IsGroup :
    (s : Text) (off acc : ℕ)
    → IsGroup acc
    → OnSome (λ (r : ℕ × ℕ × Text). IsGroup r.0) (read_hex s off acc)
unfolding read_hex
read_hex-IsGroup [] off acc h = h
read_hex-IsGroup (ch ∷ s) off acc h = elim (Option-cases (hex_value ch)) [
  | inl ends ↦ rw (ends, read_hex) h
  | inr (x, digit) ↦
      rw (digit, read_hex)
        (on_if (λ (r : ℕ × ℕ × Text). IsGroup r.0) (ltb 3 off || ltb 0xffff (acc * 16 + x)) none _
          (λ e. tt) (λ fits. read_hex-IsGroup s (off + 1) (acc * 16 + x) (ground (arith, fits))))
]

-- The groups read so far and `k` more fit an address.
abbrev pub FitGroups : Groups → Type 0
FitGroups (groups, e, rest) = (length groups ≤ 8) × All IsGroup groups

v6_dotted-fits :
    (s : Text) (done : List ℕ) (e : Option ℕ)
    → All IsGroup done
    → OnSome FitGroups (v6_dotted s done e)
unfolding v6_dotted
v6_dotted-fits s done e all =
    on_if FitGroups ((not (is_some e) && not (length done == 6)) || ltb 6 (length done)) none _
      (λ h. tt)
      (λ room.
        ends (ground (arith, room)) (v4_fields s 0 0 [])
          (v4_fields-octets s 0 0 [] (omega arith) tt))
  where
    ends :
        length done ≤ 6
        → (fields : Option (List ℕ)) → OnSome (All IsOctet) fields
        → OnSome FitGroups (elim fields as (λ _. Option Groups) [
          | some (a ∷ b ∷ c ∷ d ∷ []) ↦ some (done ++ (a * 256 + b) ∷ (c * 256 + d) ∷ [], e, [])
          | _ ↦ none
        ])
    ends h none octets = tt
    ends h (some []) octets = tt
    ends h (some (a ∷ [])) octets = tt
    ends h (some (a ∷ b ∷ [])) octets = tt
    ends h (some (a ∷ b ∷ c ∷ [])) octets = tt
    ends h (some (a ∷ b ∷ c ∷ d ∷ [])) (ha, (hb, (hc, (hd, _)))) = (
      omega (arith, h, length-append done ((a * 256 + b) ∷ (c * 256 + d) ∷ [])),
      All-append IsGroup done _ all (omega (arith, ha, hb), (omega (arith, hc, hd), tt)),
    )
    ends h (some (a ∷ b ∷ c ∷ d ∷ x ∷ xs)) octets = tt

v6_after-fits :
    (s : Text) (done : List ℕ) (e : Option ℕ) (acc : ℕ) (rest : Text)
    (next : Text → List ℕ → Option ℕ → Option Groups)
    → length done < 8
    → All IsGroup done
    → IsGroup acc
    → ((t : Text) (e' : Option ℕ) → OnSome FitGroups (next t (done ++ acc ∷ []) e'))
    → OnSome FitGroups (v6_after s done e acc rest next)
unfolding v6_after
v6_after-fits s done e acc [] next room all h go_on =
    (omega (arith, room, length-append done (acc ∷ [])), All-snoc IsGroup done acc all h)
v6_after-fits s done e acc (ch ∷ []) next room all h go_on =
    on_if FitGroups (ch == b'.') _ none (λ dot. v6_dotted-fits s done e all) (λ other. tt)
v6_after-fits s done e acc (ch ∷ ch' ∷ t) next room all h go_on =
    on_if FitGroups (ch == b'.') _ _ (λ dot. v6_dotted-fits s done e all)
      (λ _.
        on_if FitGroups (not (ch == b':')) none _ (λ other. tt)
          (λ _.
            on_if FitGroups (not (ch' == b':')) _ _ (λ one. go_on (ch' ∷ t) e)
              (λ _.
                on_if FitGroups (is_some e) none _ (λ second. tt)
                  (λ _.
                    on_if FitGroups (length t == 0) _ _
                      (λ ends. (
                        omega (arith, room, length-append done (acc ∷ [])),
                        All-snoc IsGroup done acc all h,
                      ))
                      (λ more. go_on t (some (length (done ++ acc ∷ []))))))))

pub v6_groups-fits :
    (k : ℕ) (s : Text) (done : List ℕ) (e : Option ℕ)
    → length done + k ≤ 8
    → All IsGroup done
    → OnSome FitGroups (v6_groups k s done e)
unfolding v6_groups
v6_groups-fits zero s done e room all = (omega (arith, room), all)
v6_groups-fits (suc k) s done e room all = elim (Option-cases (read_hex s 0 0)) [
  | inl none_read ↦ rw (none_read, v6_groups) tt
  | inr ((acc, off, rest), read) ↦
      let h : IsGroup acc =
        subst (OnSome (λ (r : ℕ × ℕ × Text). IsGroup r.0)) read
          (read_hex-IsGroup s 0 0 (omega arith)) in
      rw (read, v6_groups)
        (on_if FitGroups (off == 0) none _ (λ no_digit. tt)
          (λ _.
            v6_after-fits s done e acc rest (λ t groups e'. v6_groups k t groups e')
              (omega (arith, room)) all h
              (λ t e'.
                v6_groups-fits k t (done ++ acc ∷ []) e'
                  (omega (arith, room, length-append done (acc ∷ [])))
                  (All-snoc IsGroup done acc all h))))
]
