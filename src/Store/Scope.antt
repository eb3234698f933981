-- ===== src/Store/Scope.antt =====
-- `Scope` of internal/store/store.go.
use request_blocker.Shared.{Bool, true, false, ◌++◌, ◌≡◌, refl, if◌then◌else◌}
use request_blocker.Text.{Text, codes, ℤ, pos, itoa}

pub record Scope : Type 0 where
  pub global : Bool
  pub uid : ℤ

abbrev pub global_scope : Scope
global_scope = record { global = true; uid = pos 0 }

abbrev pub user_scope : ℤ → Scope
user_scope uid = record { global = false; uid = uid }

unfoldable pub label : Scope → Text
label s = if s.global then codes "global" else codes "user:" ++ itoa s.uid

label_example : label (user_scope (pos 1000)) ≡ codes "user:1000"
unfolding label itoa
label_example = refl
