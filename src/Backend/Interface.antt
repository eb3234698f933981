-- ===== src/Backend/Interface.antt =====
-- The interface `Backend` of internal/backend/backend.go, as the engine relies on it.
use request_blocker.Shared.{Bool, true, ◌≡◌, IsMap}
use request_blocker.Text.{Text, ℤ, int_eq}
use request_blocker.Backend.State.{State, Family, blocked}

-- `apply` and `teardown` return whether they succeeded; `drops` is what the firewall does to the traffic of a
-- uid. The laws are what `Apply` promises: it keeps its own books straight, and when it
-- succeeds the firewall drops exactly what the state blocks.
pub record Backend : Type 1 where
  pub name : Text
  pub Live : Type 0
  -- What stands outside of the program, and the backend that is made on it.
  pub Kernel : Type 0
  pub new : Kernel → Live
  pub apply : State → Live → Live × Bool
  pub teardown : Live → Live × Bool
  pub drops : Live → ℤ → Family → Text → Bool
  pub IsSound : Live → Type 0
  pub apply_sound : (s : State) (l : Live) → IsMap s.per_user → IsSound l → IsSound (apply s l).0
  pub apply_exact :
      (s : State) (l : Live)
      → IsMap s.per_user
      → IsSound l
      → (apply s l).1 ≡ true
      → (uid : ℤ) (f : Family) (x : Text) → drops (apply s l).0 uid f x ≡ blocked s uid f x
  pub teardown_sound : (l : Live) → IsSound (teardown l).0
  pub new_sound : (k : Kernel) → IsSound (new k)
