-- ===== src/Validate/Address/Runs.antt =====
-- The run of zeros that `IP.String` leaves out.
use request_blocker.Shared.{
  ℕ, suc, ◌+◌, ◌≤◌, ◌≡◌, ◌⊎◌, ◌∙◌, refl, sym, ap, ap₂, subst, true, false, ◌&&◌, List, [], ◌∷◌,
  ◌++◌, append_assoc, nat_eq, ◌==◌, leb, ltb, length, length-append, arith, Bool-cases, inl, inr,
  if◌then◌else◌,
}
use request_blocker.Text.{Text, take, drop, take-append}
use request_blocker.Validate.Address.Parse.{zeros}
use request_blocker.Validate.Address.Print.{zero_run, best_run}

-- Two or more zeros in their place.
pub record Run (gs : List ℕ) (start l : ℕ) : Type 0 where
  pub two : 2 ≤ l
  pub inside : start + l ≤ length gs
  pub before : length (take start gs) ≡ start
  pub whole : gs ≡ take start gs ++ (zeros l ++ drop (start + l) gs)

-- What `best_run` returns: no run, or one.
abbrev pub IsBest : List ℕ → ℕ × ℕ → Type 0
IsBest gs (start, l) = (l ≡ 0) ⊎ Run gs start l

zero_run-length : (gs : List ℕ) → zero_run gs ≤ length gs
unfolding zero_run
zero_run-length [] = omega arith
zero_run-length (g ∷ gs) = ground (arith, zero_run-length gs)

zero_run-zeros : (gs : List ℕ) → gs ≡ zeros (zero_run gs) ++ drop (zero_run gs) gs
unfolding zero_run drop
zero_run-zeros [] = refl
zero_run-zeros (g ∷ gs) = elim (Bool-cases (g == 0)) [
  | inl is_zero ↦ rw is_zero (ap₂ (λ a b. a ∷ b) (ground arith) (zero_run-zeros gs))
  | inr other ↦ rw other refl
]

pub drop-append : (s p : Text) (n : ℕ) → drop (length s + n) (s ++ p) ≡ drop n p
unfolding drop
drop-append [] p n = ap (λ m. drop m p) (omega arith)
drop-append (c ∷ s) p n =
    ap (λ m. drop m (c ∷ (s ++ p))) (length_more (length s))
    ∙ drop_suc (length s + n)
    ∙ drop-append s p n
  where
    length_more : (k : ℕ) → suc k + n ≡ suc (k + n)
    length_more k = omega arith

    drop_suc : (m : ℕ) → drop (suc m) (c ∷ (s ++ p)) ≡ drop m (s ++ p)
    drop_suc m = refl

run_here : (front gs : List ℕ) → 2 ≤ zero_run gs → Run (front ++ gs) (length front) (zero_run gs)
run_here front gs h =
    let start = length front in
    let l = zero_run gs in
    let taken = take-append front gs start refl in
    record {
      two = h;
      inside = omega (arith, zero_run-length gs, length-append front gs);
      before = ap length taken;
      whole =
          ap (λ x. front ++ x) (zero_run-zeros gs)
          ∙ sym (ap₂ (λ a b. a ++ (zeros l ++ b)) taken (drop-append front gs l));
    }

best_run_front :
    (front gs : List ℕ) (i : ℕ) (best : ℕ × ℕ)
    → length front ≡ i
    → IsBest (front ++ gs) best
    → IsBest (front ++ gs) (best_run gs i best)
unfolding best_run
best_run_front front [] i best h is = is
best_run_front front (g ∷ gs) i best h is =
    let l = zero_run (g ∷ gs) in
    let next : ℕ × ℕ = if leb 2 l && ltb best.1 l then (i, l) else best in
    let shift = append_assoc front (g ∷ []) gs in
    subst (λ x. IsBest x (best_run gs (i + 1) next)) shift
      (best_run_front (front ++ g ∷ []) gs (i + 1) next
        (omega (arith, length-append front (g ∷ []), h))
        (subst (λ x. IsBest x next) (sym shift) (better (Bool-cases (leb 2 l && ltb best.1 l)))))
  where
    better :
        ((leb 2 (zero_run (g ∷ gs)) && ltb best.1 (zero_run (g ∷ gs))) ≡ true)
          ⊎ ((leb 2 (zero_run (g ∷ gs)) && ltb best.1 (zero_run (g ∷ gs))) ≡ false)
        → IsBest (front ++ g ∷ gs) (
            if leb 2 (zero_run (g ∷ gs)) && ltb best.1 (zero_run (g ∷ gs))
            then (i, zero_run (g ∷ gs))
            else best)
    better (inl longer) = rw longer (
        inr (
          subst (λ n. Run (front ++ g ∷ gs) n (zero_run (g ∷ gs))) h
            (run_here front (g ∷ gs) (ground arith))))
    better (inr shorter) = rw shorter is

pub best_run-IsBest : (gs : List ℕ) → IsBest gs (best_run gs 0 (0, 0))
best_run-IsBest gs = best_run_front [] gs 0 (0, 0) refl (inl refl)
