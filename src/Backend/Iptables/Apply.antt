-- ===== src/Backend/Iptables/Apply.antt =====
-- The `Apply` of internal/backend/iptables.go keeps the interface's promise.
use request_blocker.Shared.{
  Bool, true, false, Option, none, some, ◌≡◌, refl, sym, arith, list_eq, nat_eq, ◌==◌, length,
  IsMap, Bool-cases, inl, inr, subst,
}
use request_blocker.Text.{Text, codes, ℤ, int_eq}
use request_blocker.Backend.State.{Family, State, sorted_uids, same_uids, blocked}
use request_blocker.Backend.Interface.{Backend}
use request_blocker.Backend.Iptables.Commands.{build_set_delta}
use request_blocker.Backend.Iptables.Tool.{IptablesTool, drops}
use request_blocker.Backend.Iptables.Matching.{Matches, Matches-drops, delta_effects, empty_delta}
use request_blocker.Backend.Iptables.Defs.{
  IptablesBackend, new_iptables_backend, full_apply, remembered, incremental, apply_from, apply,
  Remembers, IsSound, teardown,
}
use request_blocker.Backend.Iptables.Full.{full_apply-Matches}

module _ (tool : IptablesTool) where
  open tool use {
    Live, view, ipset, restore, jumps, insert_jump, ipset_done, restore_done, jumps_true,
    insert_done,
  }

  -- A delta between states with the same uids.
  delta-Matches :
      (p s : State) (l : Live)
      → IsMap p.per_user
      → IsMap s.per_user
      → same_uids p.per_user s.per_user ≡ true
      → Matches (view l) p
      → (ipset (build_set_delta p s (sorted_uids s.per_user)) l).1 ≡ true
      → Matches (view (ipset (build_set_delta p s (sorted_uids s.per_user)) l).0) s
  delta-Matches p s l up us same m done =
      let cs = build_set_delta p s (sorted_uids s.per_user) in
      rw (ipset_done cs l done) (delta_effects p s (view l) up us same m)

  abbrev Settled : State → IptablesBackend tool × Bool → Type 0
  Settled s (b, done) =
      (done ≡ true → (b.last ≡ some s) × Matches (view b.firewall) s)
      × (done ≡ false → b.last ≡ none)

  remembered-Settled :
      (s : State) (r : Live × Bool)
      → (r.1 ≡ true → Matches (view r.0) s)
      → Settled s (remembered tool s r)
  remembered-Settled s (l, true) h = ((λ _. (refl, h refl)), λ e. cc)
  remembered-Settled s (l, false) h = ((λ e. cc), λ _. refl)

  full-Settled :
      (s : State) (l : Live)
      → Settled s (remembered tool s (full_apply tool s (sorted_uids s.per_user) l))
  full-Settled s l =
      remembered-Settled s (full_apply tool s (sorted_uids s.per_user) l)
        (full_apply-Matches tool s l)

  incremental-Settled :
      (p s : State) (l : Live)
      → IsMap p.per_user
      → IsMap s.per_user
      → same_uids p.per_user s.per_user ≡ true
      → Matches (view l) p
      → Settled s (incremental tool p s (sorted_uids s.per_user) l)
  unfolding incremental
  incremental-Settled p s l up us same m =
      let delta = build_set_delta p s (sorted_uids s.per_user) in
      elim (Bool-cases (length delta == 0)) [
        | inl empty ↦
            rw (empty, incremental)
              (
                (λ _. (
                  refl,
                  empty_delta p s (view l) (ground arith) (delta_effects p s (view l) up us same m),
                )),
                λ e. cc,
              )
        | inr some_commands ↦ elim (Bool-cases (ipset delta l).1) [
          | inl done ↦
              rw (some_commands, incremental)
                (rw (done, incremental)
                  ((λ _. (refl, delta-Matches p s l up us same m done)), λ e. cc))
          | inr failed ↦
              rw (some_commands, incremental)
                (rw (failed, incremental) (full-Settled s (ipset delta l).0))
        ]
      ]

  apply-Settled :
      (s : State) (b : IptablesBackend tool)
      → IsMap s.per_user
      → IsSound tool b
      → Settled s (apply tool s b)
  unfolding apply
  apply-Settled s b us sound = go b.last sound
    where
      go :
          (last : Option State)
          → Remembers tool last (view b.firewall)
          → Settled s (apply_from tool last s b.firewall)
      go none h = full-Settled s b.firewall
      go (some p) (m, up) = elim (Bool-cases (same_uids p.per_user s.per_user)) [
        | inl same ↦ rw (same, apply_from) (incremental-Settled p s b.firewall up us same m)
        | inr different ↦ rw (different, apply_from) (full-Settled s b.firewall)
      ]

  -- Whether `Apply` succeeds or not, and wherever it fails, the iptables backend keeps its memory
  -- true: what it remembers as applied is what the firewall enforces.
  pub iptables_apply-IsSound :
      (s : State) (b : IptablesBackend tool)
      → IsMap s.per_user
      → IsSound tool b
      → IsSound tool (apply tool s b).0
  iptables_apply-IsSound s b us sound = elim (Bool-cases (apply tool s b).1) [
    | inl done ↦
        let (last, m) = (apply-Settled s b us sound).0 done in
        subst (λ o. Remembers tool o (view (apply tool s b).0.firewall)) (sym last) (m, us)
    | inr failed ↦
        let forgotten = (apply-Settled s b us sound).1 failed in
        subst (λ o. Remembers tool o (view (apply tool s b).0.firewall)) (sym forgotten) tt
  ]

  -- After an `Apply` of the iptables backend that succeeds, by a full apply, a delta or a delta that
  -- was healed, on a backend whose memory is true, the firewall drops the traffic of a uid to an
  -- address exactly if the global set or the uid's own set holds the address.
  pub iptables_apply_exact :
      (s : State) (b : IptablesBackend tool)
      → IsMap s.per_user
      → IsSound tool b
      → (apply tool s b).1 ≡ true
      → (u : ℤ) (f : Family) (x : Text)
      → drops (view (apply tool s b).0.firewall) u f x ≡ blocked s u f x
  iptables_apply_exact s b us sound done =
      Matches-drops (view (apply tool s b).0.firewall) s ((apply-Settled s b us sound).0 done).1

  pub teardown-IsSound : (b : IptablesBackend tool) → IsSound tool (teardown tool b).0
  unfolding teardown
  teardown-IsSound b = tt

  -- The iptables backend as an implementation of the interface.
  abbrev pub iptables_backend : Backend
  iptables_backend = record {
    name = codes "iptables+ipset";
    Live = IptablesBackend tool;
    Kernel = Live;
    new = new_iptables_backend tool;
    apply = apply tool;
    teardown = teardown tool;
    drops = λ b. drops (view b.firewall);
    IsSound = IsSound tool;
    apply_sound = iptables_apply-IsSound;
    apply_exact = iptables_apply_exact;
    teardown_sound = teardown-IsSound;
    new_sound = λ k. tt;
  }
