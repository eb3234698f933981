-- ===== src/Text/Search.antt =====
-- Prefixes and positions: `HasPrefix`, `HasSuffix`, `Index`, `LastIndex`, `Contains`, `Count`.
use mathlib.Core.List.{reverse}
use mathlib.Core.Option
use request_blocker.Shared.{
  ℕ, suc, ◌+◌, ◌≡◌, refl, Bool, true, false, ◌&&◌, Option, none, some, [], ◌∷◌, arith, ◌==◌, nat_eq,
  contains, if◌then◌else◌,
}
use request_blocker.Text.Codes.{Text}

unfoldable pub has_prefix : Text → Text → Bool
has_prefix s [] = true
has_prefix [] (d ∷ p) = false
has_prefix (c ∷ s) (d ∷ p) = c == d && has_prefix s p

unfoldable pub has_suffix : Text → Text → Bool
unfolding has_prefix
has_suffix s p = has_prefix (reverse s) (reverse p)

unfoldable pub index : Text → Text → Option ℕ
unfolding has_prefix
index [] sep = if has_prefix [] sep then some 0 else none
index (c ∷ s) sep = if has_prefix (c ∷ s) sep then some 0 else Option.map suc (index s sep)

-- `LastIndex` of a text of one character.
unfoldable pub last_index : Text → ℕ → Option ℕ
last_index [] c = none
last_index (x ∷ s) c = elim (last_index s c) [
  | some i ↦ some (suc i)
  | none ↦ if x == c then some 0 else none
]

unfoldable pub count : Text → ℕ → ℕ
count [] c = 0
count (x ∷ s) c = (if x == c then 1 else 0) + count s c

pub last_index-lacks : (s : Text) (c : ℕ) → contains s c ≡ false → last_index s c ≡ none
unfolding last_index contains
last_index-lacks [] c h = refl
last_index-lacks (x ∷ s) c h = ground (arith, last_index-lacks s c)

-- A text that lacks the first character of `sep` does not hold `sep`.
pub index-lacks : (s : Text) (d : ℕ) (p : Text) → contains s d ≡ false → index s (d ∷ p) ≡ none
unfolding index contains
index-lacks [] d p h = refl
index-lacks (x ∷ s) d p h = ground (arith, index-lacks s d p)
