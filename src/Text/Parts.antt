-- ===== src/Text/Parts.antt =====
-- What the parts of a `Split` say of the whole text.
use mathlib.Core.List.{reverse, reverse-cons, concat-ne-nil}
use request_blocker.Shared.{
  ℕ, ◌≤◌, ◌≡◌, ◌≢◌, ◌∙◌, refl, ap, Bool, true, false, ◌⊎◌, List, [], ◌∷◌, ◌++◌, All, nat_eq,
  nat_beq_iff, ◌==◌, contains, length, arith,
}
use request_blocker.Text.Codes.{Text}
use request_blocker.Text.Search.{has_prefix, has_suffix}
use request_blocker.Text.Pieces.{split, split_step}

length-split : (s : Text) (sep : ℕ) → 1 ≤ length (split s sep)
unfolding split
length-split [] sep = omega arith
length-split (c ∷ s) sep = step (split s sep) (length-split s sep)
  where
    step : (ps : List Text) → 1 ≤ length ps → 1 ≤ length (split_step sep c ps)
    step [] h = h
    step (p ∷ ps) h = ground arith

split_step-sep : (sep : ℕ) (ps : List Text) → 1 ≤ length ps → split_step sep sep ps ≡ [] ∷ ps
split_step-sep sep [] h = absurd (omega arith)
split_step-sep sep (p ∷ ps) h = ground (arith, nat_beq_iff sep sep)

-- A part without the separator comes first.
pub split-first :
    (sep : ℕ) (p rest : Text)
    → All (λ c. (c == sep) ≡ false) p
    → split (p ++ (sep ∷ rest)) sep ≡ p ∷ split rest sep
unfolding split
split-first sep [] rest h = split_step-sep sep (split rest sep) (length-split rest sep)
split-first sep (c ∷ p) rest (hc, h) = ap (split_step sep c) (split-first sep p rest h) ∙ rw hc refl

module _ (P : ℕ → Type 0) (sep : ℕ) where
  All-split_step :
      (c : ℕ) (ps : List Text)
      → 1 ≤ length ps
      → All (All P) (split_step sep c ps)
      → (P c ⊎ (c ≡ sep)) × All (All P) ps
  All-split_step c [] h all = absurd (omega arith)
  All-split_step c (p ∷ ps) h all = ground arith

  -- A character of the text is the separator or stands in a part.
  pub All-split : (s : Text) → All (All P) (split s sep) → All (λ c. P c ⊎ (c ≡ sep)) s
  unfolding split
  All-split [] _ = tt
  All-split (c ∷ s) all =
      let (here, rest) = All-split_step c (split s sep) (length-split s sep) all in
      (here, All-split s rest)

  pub All-lacks : (s : Text) → ¬ P sep → All P s → contains s sep ≡ false
  unfolding contains
  All-lacks [] no_sep _ = refl
  All-lacks (c ∷ s) no_sep (h, hs) = ground (arith, All-lacks s no_sep hs, nat_beq_iff c sep)

abbrev pub ends_with : Text → ℕ → Bool
ends_with [] c = false
ends_with (x ∷ []) c = x == c
ends_with (x ∷ y ∷ s) c = ends_with (y ∷ s) c

starts_same : (s t : Text) (c : ℕ) → s ≢ [] → has_prefix (s ++ t) (c ∷ []) ≡ has_prefix s (c ∷ [])
unfolding has_prefix
starts_same [] t c h = absurd (h refl)
starts_same (x ∷ s) t c h = ground (arith, any s, any (s ++ t))
  where
    any : (u : Text) → has_prefix u [] ≡ true
    any [] = refl
    any (_ ∷ _) = refl

pub has_suffix-ends_with : (s : Text) (c : ℕ) → has_suffix s (c ∷ []) ≡ ends_with s c
unfolding has_suffix
has_suffix-ends_with [] c = refl
has_suffix-ends_with (x ∷ []) c = ground arith
has_suffix-ends_with (x ∷ y ∷ s) c =
    rw (reverse-cons x (y ∷ s)) (
      starts_same (reverse (y ∷ s)) (x ∷ []) c
        (rw (reverse-cons y s) (concat-ne-nil y (reverse s))))
    ∙ has_suffix-ends_with (y ∷ s) c

-- Two parts or more, the last of them empty.
abbrev pub EndsEmpty : List Text → Type 0
EndsEmpty [] = ⊥
EndsEmpty (p ∷ []) = ⊥
EndsEmpty (p ∷ q ∷ []) = q ≡ []
EndsEmpty (p ∷ q ∷ r ∷ ps) = EndsEmpty (q ∷ r ∷ ps)

EndsEmpty-split_step : (sep c : ℕ) (ps : List Text) → EndsEmpty ps → EndsEmpty (split_step sep c ps)
EndsEmpty-split_step sep c [] h = h
EndsEmpty-split_step sep c (p ∷ []) h = absurd h
EndsEmpty-split_step sep c (p ∷ q ∷ []) h = ground arith
EndsEmpty-split_step sep c (p ∷ q ∷ r ∷ ps) h = ground arith

pub split-EndsEmpty : (s : Text) (sep : ℕ) → ends_with s sep ≡ true → EndsEmpty (split s sep)
unfolding split
split-EndsEmpty [] sep h = cc
split-EndsEmpty (c ∷ []) sep h = ground arith
split-EndsEmpty (c ∷ d ∷ s) sep h =
    EndsEmpty-split_step sep c (split (d ∷ s) sep) (split-EndsEmpty (d ∷ s) sep h)
