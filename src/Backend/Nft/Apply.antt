-- ===== src/Backend/Nft/Apply.antt =====
-- `Apply` and `Teardown` of internal/backend/nft.go, and that they keep the interface's promise.
use request_blocker.Shared.{
  Bool, true, false, Option, none, some, List, [], ◌∷◌, ◌≡◌, refl, sym, arith, nat_eq, ◌==◌, length,
  IsMap, Bool-cases, inl, inr, subst, if◌then◌else◌,
}
use request_blocker.Text.{Text, codes, ℤ, int_eq}
use request_blocker.Backend.State.{Family, State, same_uids, same_uids-has_user, blocked}
use request_blocker.Backend.Interface.{Backend}
use request_blocker.Backend.Nft.Commands.{
  Command, add_table, delete_table, build_script, build_delta,
}
use request_blocker.Backend.Nft.Kernel.{Ruleset, NftTool, effects, drops}
use request_blocker.Backend.Nft.Scripted.{Matches, Matches-drops, build_script-Matches}
use request_blocker.Backend.Nft.Matching.{build_delta-Matches}

module _ (tool : NftTool) where
  open tool use {Live, view, run, run_fails, run_done}

  -- The backend's `last`, and the live ruleset.
  pub record NftBackend : Type 0 where
    pub last : Option State
    pub live : Live

  -- `newNftBackend`, on the ruleset as it is.
  abbrev pub new_nft_backend : Live → NftBackend
  new_nft_backend l = record { last = none; live = l }

  full : State → NftBackend → NftBackend × Bool
  full state b =
      let (live', done) = run (build_script state) b.live in
      if done
      then (record { last = some state; live = live' }, true)
      else (record { last = none; live = live' }, false)

  incremental : State → State → NftBackend → NftBackend × Bool
  unfolding full
  incremental prev state b =
      let delta = build_delta prev state in
      let (live', done) = run delta b.live in
      if length delta == 0
      then (record b { last = some state }, true)
      else if done
      then (record { last = some state; live = live' }, true)
      else full state (record { last = some prev; live = live' })

  apply_from : Option State → State → NftBackend → NftBackend × Bool
  unfolding incremental
  apply_from none state b = full state b
  apply_from (some prev) state b =
      if same_uids prev.per_user state.per_user then incremental prev state b else full state b

  unfoldable pub apply : State → NftBackend → NftBackend × Bool
  unfolding apply_from
  apply state b = apply_from b.last state b

  unfoldable pub teardown : NftBackend → NftBackend × Bool
  teardown b =
      let (live', done) = run (add_table ∷ delete_table ∷ []) b.live in
      (record { last = none; live = live' }, done)

  -- What the backend remembers is what the firewall enforces.
  abbrev pub Remembers : Option State → Ruleset → Type 0
  Remembers none r = Unit
  Remembers (some s) r = Matches r s × IsMap s.per_user

  abbrev pub IsSound : NftBackend → Type 0
  IsSound b = Remembers b.last (view b.live)

  -- After a step that succeeds the ruleset is that of the state, and is remembered; after one
  -- that fails nothing is remembered.
  abbrev Settled : State → NftBackend × Bool → Type 0
  Settled s (b, done) =
      (done ≡ true → (b.last ≡ some s) × Matches (view b.live) s) × (done ≡ false → b.last ≡ none)

  full-Settled : (s : State) (b : NftBackend) → Settled s (full s b)
  unfolding full
  full-Settled s b = elim (Bool-cases (run (build_script s) b.live).1) [
    | inl done ↦
        rw (done, full)
          (
            (λ _. (
              refl,
              rw (run_done (build_script s) b.live done) (build_script-Matches s (view b.live)),
            )),
            λ e. cc,
          )
    | inr failed ↦ rw (failed, full) ((λ e. cc), λ _. refl)
  ]

  delta-Matches :
      (p s : State) (l : Live)
      → IsMap p.per_user
      → IsMap s.per_user
      → same_uids p.per_user s.per_user ≡ true
      → Matches (view l) p
      → Matches (effects (build_delta p s) (view l)) s
  delta-Matches p s l up us same m =
      build_delta-Matches p s (view l) (same_uids-has_user p.per_user s.per_user up us same) m

  no_commands : (cs : List Command) (r : Ruleset) → length cs ≡ 0 → effects cs r ≡ r
  unfolding effects
  no_commands [] r _ = refl
  no_commands (c ∷ cs) r h = absurd (omega arith)

  incremental-Settled :
      (p s : State) (b : NftBackend)
      → Matches (effects (build_delta p s) (view b.live)) s
      → Settled s (incremental p s b)
  unfolding incremental
  incremental-Settled p s b m = elim (Bool-cases (length (build_delta p s) == 0)) [
    | inl empty ↦
        rw (empty, incremental)
          (
            (λ _. (refl, rw (no_commands (build_delta p s) (view b.live) (ground arith)) at m)),
            λ e. cc,
          )
    | inr some_commands ↦ elim (Bool-cases (run (build_delta p s) b.live).1) [
      | inl done ↦
          rw (some_commands, incremental)
            (rw (done, incremental)
              ((λ _. (refl, rw (run_done (build_delta p s) b.live done) m)), λ e. cc))
      | inr failed ↦
          rw (some_commands, incremental)
            (rw (failed, incremental)
              (full-Settled s (record { last = some p; live = (run (build_delta p s) b.live).0 })))
    ]
  ]

  pub apply-Settled :
      (s : State) (b : NftBackend) → IsMap s.per_user → IsSound b → Settled s (apply s b)
  unfolding apply
  apply-Settled s b us sound = go b.last sound
    where
      go : (last : Option State) → Remembers last (view b.live) → Settled s (apply_from last s b)
      go none h = full-Settled s b
      go (some p) (m, up) = elim (Bool-cases (same_uids p.per_user s.per_user)) [
        | inl same ↦
            rw (same, apply_from)
              (incremental-Settled p s b (delta-Matches p s b.live up us same m))
        | inr different ↦ rw (different, apply_from) (full-Settled s b)
      ]

  -- Whether `Apply` succeeds or not, it keeps the backend's memory true: what it remembers as
  -- applied is what the firewall enforces.
  pub apply-IsSound :
      (s : State) (b : NftBackend) → IsMap s.per_user → IsSound b → IsSound (apply s b).0
  apply-IsSound s b us sound = elim (Bool-cases (apply s b).1) [
    | inl done ↦
        let (last, m) = (apply-Settled s b us sound).0 done in
        subst (λ o. Remembers o (view (apply s b).0.live)) (sym last) (m, us)
    | inr failed ↦
        let forgotten = (apply-Settled s b us sound).1 failed in
        subst (λ o. Remembers o (view (apply s b).0.live)) (sym forgotten) tt
  ]

  -- After an `Apply` that succeeds, by a full script, a delta or a delta that was healed, on a
  -- backend whose memory is true, the firewall drops the traffic of a uid to an address exactly
  -- if the global set or the uid's own set holds the address.
  pub apply_exact :
      (s : State) (b : NftBackend)
      → IsMap s.per_user
      → IsSound b
      → (apply s b).1 ≡ true
      → (u : ℤ) (f : Family) (x : Text) → drops (view (apply s b).0.live) u f x ≡ blocked s u f x
  apply_exact s b us sound done =
      Matches-drops (view (apply s b).0.live) s ((apply-Settled s b us sound).0 done).1

  pub teardown-IsSound : (b : NftBackend) → IsSound (teardown b).0
  unfolding teardown
  teardown-IsSound b = tt

  -- The nftables backend as an implementation of the interface.
  abbrev pub nft_backend : Backend
  nft_backend = record {
    name = codes "nftables";
    Live = NftBackend;
    Kernel = Live;
    new = new_nft_backend;
    apply = apply;
    teardown = teardown;
    drops = λ b. drops (view b.live);
    IsSound = IsSound;
    apply_sound = apply-IsSound;
    apply_exact = apply_exact;
    teardown_sound = teardown-IsSound;
    new_sound = λ k. tt;
  }
