-- ===== src/Shared/Maps.antt =====
-- Go's maps, as association lists with one value for each key. A `map[T]bool` that only holds
-- `true` is the list of its keys.
use mathlib.Core.Path.{◌≡◌, refl}
use mathlib.Core.Bool.{Bool, true, false, ◌||◌}
use mathlib.Core.List.{List, [], ◌∷◌}
use mathlib.Core.Option.{Option, none, some}
use native.Mathlib.Omega.{arith}
use request_blocker.Shared.Tests.{if◌then◌else◌}
use request_blocker.Shared.Equality.{Eq, ◌==◌}
use request_blocker.Shared.Lists.{contains, contains-nil}
use request_blocker.Shared.Order.{IsUnique}

abbrev pub Map {ℓ κ} : Type ℓ → Type κ → Type (ℓ ⊔ κ)
Map K V = List (K × V)

abbrev pub is_some {ℓ} : {A : Type ℓ} → Option A → Bool
is_some none = false
is_some (some _) = true

module _ {ℓ κ} {K : Type ℓ} {V : Type κ} where
  abbrev pub keys : Map K V → List K
  keys [] = []
  keys ((j, v) ∷ m) = j ∷ keys m

module _ {ℓ κ} {K : Type ℓ} {V : Type κ} ⦃e : Eq K⦄ where
  unfoldable pub lookup : K → Map K V → Option V
  lookup k [] = none
  lookup k ((j, v) ∷ m) = if j == k then some v else lookup k m

  unfoldable pub insert : K → V → Map K V → Map K V
  insert k v [] = (k, v) ∷ []
  insert k v ((j, w) ∷ m) = if j == k then (k, v) ∷ m else (j, w) ∷ insert k v m

  unfoldable pub delete : K → Map K V → Map K V
  delete k [] = []
  delete k ((j, v) ∷ m) = let rest = delete k m in if j == k then rest else (j, v) ∷ rest

  pub lookup-insert :
      (j k : K) (v : V) (m : Map K V)
      → lookup j (insert k v m) ≡ (if k == j then some v else lookup j m)
  unfolding lookup insert
  lookup-insert j k v [] = refl
  lookup-insert j k v ((i, w) ∷ m) =
      ground (arith, e.same_iff k j, e.same_iff i k, e.same_iff i j, lookup-insert j k v m)

  pub lookup-delete :
      (j k : K) (m : Map K V) → lookup j (delete k m) ≡ (if k == j then none else lookup j m)
  unfolding lookup delete
  lookup-delete j k [] = ground arith
  lookup-delete j k ((i, w) ∷ m) =
      ground (arith, e.same_iff k j, e.same_iff i k, e.same_iff i j, lookup-delete j k m)

  pub contains-keys : (m : Map K V) (k : K) → contains (keys m) k ≡ is_some (lookup k m)
  unfolding lookup contains
  contains-keys [] k = refl
  contains-keys ((j, v) ∷ m) k = ground (arith, contains-keys m k)

  pub insert-insert : (k : K) (v w : V) (m : Map K V) → insert k w (insert k v m) ≡ insert k w m
  unfolding insert
  insert-insert k v w [] = ground (arith, e.same_iff k k)
  insert-insert k v w ((j, x) ∷ m) =
      ground (arith, e.same_iff j k, e.same_iff k k, insert-insert k v w m)

  -- A key that was not there can be deleted, and inserted and deleted, without a trace.
  pub delete_absent : (k : K) (m : Map K V) → lookup k m ≡ none → delete k m ≡ m
  unfolding lookup delete
  delete_absent k [] h = refl
  delete_absent k ((j, x) ∷ m) h = ground (arith, delete_absent k m)

  pub delete-insert_absent :
      (k : K) (v : V) (m : Map K V) → lookup k m ≡ none → delete k (insert k v m) ≡ m
  unfolding lookup delete insert
  delete-insert_absent k v [] h = ground (arith, e.same_iff k k)
  delete-insert_absent k v ((j, x) ∷ m) h = ground (arith, delete-insert_absent k v m)

module _ {ℓ κ} {K : Type ℓ} {V : Type κ} ⦃e : Eq K⦄ where
  -- A Go map has one value for each key.
  abbrev pub IsMap : Map K V → Type 0
  IsMap m = IsUnique (keys m)

  contains-keys-insert :
      (k : K) (v : V) (m : Map K V) (j : K)
      → contains (keys (insert k v m)) j ≡ (k == j || contains (keys m) j)
  unfolding insert contains
  contains-keys-insert k v [] j = refl
  contains-keys-insert k v ((i, w) ∷ m) j =
      ground (arith, contains-keys-insert k v m j, e.same_iff i k, e.same_iff i j, e.same_iff k j)

  pub insert-IsMap : (k : K) (v : V) (m : Map K V) → IsMap m → IsMap (insert k v m)
  unfolding insert
  insert-IsMap k v [] _ = (contains-nil k, tt)
  insert-IsMap k v ((i, w) ∷ m) (h, hs) =
      ground
        (arith, insert-IsMap k v m hs, contains-keys-insert k v m i, e.same_iff i k, e.same_iff k i)
