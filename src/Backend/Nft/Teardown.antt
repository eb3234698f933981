-- ===== src/Backend/Nft/Teardown.antt =====
-- `Teardown` of internal/backend/nft.go.
use request_blocker.Shared.{List, Bool, ap, if◌then◌else◌, true, false, [], ◌∷◌, ◌≡◌, refl, none}
use request_blocker.Text.{Text, ℤ}
use request_blocker.Backend.State.{Family}
use request_blocker.Backend.Nft.Commands.{Command, add_table, delete_table}
use request_blocker.Backend.Nft.Kernel.{NftTool, effect, effects, drops}
use request_blocker.Backend.Nft.Apply.{NftBackend, teardown}

module _ (tool : NftTool) where
  open tool use {Live, view, run, run_fails, run_done}

  -- `Teardown` forgets what was applied. When it succeeds the firewall drops nothing, whatever
  -- was in the table; when it fails the firewall drops what it dropped before.
  pub nft_teardown_lem :
      (b : NftBackend tool) (u : ℤ) (f : Family) (x : Text)
      → ((teardown tool b).0.last ≡ none)
        × (drops (view (teardown tool b).0.live) u f x
            ≡ (if (teardown tool b).1 then false else drops (view b.live) u f x))
  unfolding teardown effects effect
  nft_teardown_lem b u f x =
      (refl, go (run script b.live) (run_done script b.live) (run_fails script b.live))
    where
      script : List Command
      script = add_table ∷ delete_table ∷ []

      go :
          (r : Live × Bool)
          → (r.1 ≡ true → view r.0 ≡ effects script (view b.live))
          → (r.1 ≡ false → view r.0 ≡ view b.live)
          → drops (view r.0) u f x ≡ (if r.1 then false else drops (view b.live) u f x)
      go (l, true) done failed = ap (λ w. drops w u f x) (done refl)
      go (l, false) done failed = ap (λ w. drops w u f x) (failed refl)
