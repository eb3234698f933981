-- ===== src/Resolver/Pool/Progress.antt =====
-- `ResolveMany` as a run of its goroutines: it never blocks, it ends, and what it returns.
use request_blocker.Shared.{
  ℕ, zero, suc, ◌+◌, ◌*◌, true, false, ◌&&◌, not, is_some, ◌≡◌, refl, ap, ◌⊎◌, inl, inr, none, List,
  [], ◌∷◌, arith, list_eq, nat_eq, All, Bool-cases, contains, contains-nil, length, ◌≤◌, lookup,
  if◌then◌else◌,
}
use request_blocker.Text.{Text, ℤ, pos, negsuc}
use request_blocker.Resolver.{Dns, outcome, outcomes, collect, resolve, resolve_many}
use request_blocker.Resolver.Order.{resolve_many_lem}
use request_blocker.Resolver.Pool.{
  Worker, waiting, looking, sending, returned, panicked, any_panicked, Pool, Turn, here, there,
  Step, give, look_up, report, close_jobs, leave, close_out, end, is_returned, all_returned, Run,
  start, later, worker_count, spawn, launch,
}
use request_blocker.Resolver.Pool.Count.{todo_all, steps_left, Run-steps_left}
use request_blocker.Resolver.Pool.Kept.{held, Honest, Kept, Step-Kept}

spawn-held : (n : ℕ) (d : Text) → held (spawn n) d ≡ false
unfolding spawn
spawn-held zero d = refl
spawn-held (suc n) d = spawn-held n d

spawn-Honest : (dns : Dns) (n : ℕ) → All (Honest dns) (spawn n)
unfolding spawn
spawn-Honest dns zero = tt
spawn-Honest dns (suc n) = (tt, spawn-Honest dns n)

spawn-todo : (n : ℕ) → todo_all (spawn n) ≡ n
unfolding spawn
spawn-todo zero = refl
spawn-todo (suc n) = omega (arith, spawn-todo n)

spawn-works : (concurrency : ℤ) → all_returned (spawn (worker_count concurrency)) ≡ false
unfolding spawn worker_count
spawn-works (pos zero) = refl
spawn-works (pos (suc n)) = refl
spawn-works (negsuc n) = refl

launch-Kept : (dns : Dns) (domains : List Text) (c : ℤ) → Kept dns domains (launch domains c)
unfolding launch collect outcomes
launch-Kept dns [] c = record {
  arrival = [];
  so_far = refl;
  spread = λ d. ground (arith, contains-nil d);
  honest = tt;
  jobs = λ _. refl;
  working = λ h. ground (arith, h);
  out = λ _. refl;
  ended = λ _. refl;
}
launch-Kept dns (x ∷ xs) c = record {
  arrival = [];
  so_far = refl;
  spread = λ d. ground (arith, contains-nil d, spawn-held (worker_count c) d);
  honest = spawn-Honest dns (worker_count c);
  jobs = λ h. ground (arith, h);
  working = λ _. spawn-works c;
  out = λ h. ground (arith, h);
  ended = λ h. ground (arith, h);
}

Run-Kept :
    {dns : Dns} {domains : List Text} {s : Pool} {n : ℕ} {t : Pool}
    → Run dns s n t
    → Kept dns domains s
    → Kept dns domains t
Run-Kept start k = k
Run-Kept {domains} (later r st) k = Step-Kept domains st (Run-Kept r k)

-- A worker that has not returned can be the one that takes the next step.
free :
    (ws : List Worker)
    → all_returned ws ≡ false
    → (a : Worker) × (is_returned a ≡ false) × ((b : Worker) → (us : List Worker) × Turn a b ws us)
free [] h = absurd (ground (arith, h))
free (w ∷ ws) h = elim (Bool-cases (is_returned w)) [
  | inr busy ↦ (w, busy, λ b. (b ∷ ws, here))
  | inl gone ↦
      let (a, p, turn) = free ws (ground (arith, h, gone)) in
      (a, p, λ b. let (us, t) = turn b in (w ∷ us, there t))
]

returned-held : (ws : List Worker) (d : Text) → all_returned ws ≡ true → held ws d ≡ false
returned-held [] d h = refl
returned-held (waiting ∷ ws) d h = ground (arith, h)
returned-held (looking e ∷ ws) d h = ground (arith, h)
returned-held (sending o ∷ ws) d h = ground (arith, h)
returned-held (returned ∷ ws) d h = returned-held ws d h
returned-held (panicked ∷ ws) d h = returned-held ws d h

Honest-any_panicked : (dns : Dns) (ws : List Worker) → All (Honest dns) ws → any_panicked ws ≡ false
Honest-any_panicked dns [] _ = refl
Honest-any_panicked dns (waiting ∷ ws) (_, hs) = Honest-any_panicked dns ws hs
Honest-any_panicked dns (looking d ∷ ws) (_, hs) = Honest-any_panicked dns ws hs
Honest-any_panicked dns (sending o ∷ ws) (_, hs) = Honest-any_panicked dns ws hs
Honest-any_panicked dns (returned ∷ ws) (_, hs) = Honest-any_panicked dns ws hs
Honest-any_panicked dns (panicked ∷ ws) (h, hs) = absurd h

Kept-Step :
    {dns : Dns} {domains : List Text} {s : Pool}
    → Kept dns domains s
    → s.over ≡ false
    → (t : Pool) × Step dns s t
Kept-Step {dns} {s} k more = elim (Bool-cases (all_returned s.workers)) [
  | inl none_works ↦ elim (Bool-cases s.out_closed) [
    | inl shut ↦ (_, end shut more)
    | inr unclosed ↦ (_, close_out none_works unclosed)
  ]
  | inr works ↦
      let (a, p, turn) = free s.workers works in
      let out_open : s.out_closed ≡ false = ground (arith, k.out, works) in
      turn_step a p turn out_open
]
  where
    give_or_close :
        (left : List Text)
        → s.left ≡ left
        → s.jobs_closed ≡ false
        → ((b : Worker) → (us : List Worker) × Turn waiting b s.workers us)
        → (t : Pool) × Step dns s t
    give_or_close [] e f turn = (_, close_jobs e f)
    give_or_close (d ∷ ds) e f turn = let (us, t) = turn (looking d) in (_, give e f t)

    turn_step :
        (a : Worker)
        → is_returned a ≡ false
        → ((b : Worker) → (us : List Worker) × Turn a b s.workers us)
        → s.out_closed ≡ false
        → (t : Pool) × Step dns s t
    turn_step waiting p turn f = elim (Bool-cases s.jobs_closed) [
      | inl shut ↦ let (us, t) = turn returned in (_, leave shut t)
      | inr unclosed ↦ give_or_close s.left refl unclosed turn
    ]
    turn_step (looking d) p turn f = let (us, t) = turn (sending (outcome dns d)) in (_, look_up t)
    turn_step (sending o) p turn f = let (us, t) = turn waiting in (_, report f more t)
    turn_step returned p turn f = absurd (ground (arith, p))
    turn_step panicked p turn f = absurd (ground (arith, p))

launch-steps_left :
    (domains : List Text) (c : ℤ)
    → steps_left (launch domains c) ≤ 3 * length domains + worker_count c + 3
unfolding launch
launch-steps_left [] c = omega arith
launch-steps_left (d ∷ ds) c = omega (arith, spawn-todo (worker_count c))

-- However the goroutines of `ResolveMany` are scheduled, no run of them is longer than three
-- steps for each domain, one for each worker and three more; after each run that is not at its end
-- a further step is possible, so there is no deadlock; and in no run has a worker panicked, as it
-- would by a send when `out` is closed.
pub Run-progress :
    (dns : Dns) (domains : List Text) (concurrency : ℤ) (n : ℕ) (s : Pool)
    → Run dns (launch domains concurrency) n s
    → (n ≤ 3 * length domains + worker_count concurrency + 3)
      × ((s.over ≡ true) ⊎ ((t : Pool) × Step dns s t))
      × (any_panicked s.workers ≡ false)
Run-progress dns domains c n s r = (
  omega (arith, Run-steps_left r, launch-steps_left domains c),
  elim (Bool-cases s.over) [
    | inl over ↦ inl over
    | inr more ↦ inr (Kept-Step (Run-Kept r (launch-Kept dns domains c)) more)
  ],
  Honest-any_panicked dns s.workers (Run-Kept r (launch-Kept dns domains c)).honest,
)

-- Every run of the goroutines of `ResolveMany` that is at its end has collected what
-- `resolve_many` returns for some order of the requested domains' arrivals, in which the same
-- domains occur: the result of each one's own lookup, and the failed ones apart.
pub Run-resolve_many :
    (dns : Dns) (domains : List Text) (concurrency : ℤ) (n : ℕ) (s : Pool)
    → Run dns (launch domains concurrency) n s
    → s.over ≡ true
    → (arrival : List Text) × (s.collected ≡ resolve_many dns arrival)
      × ((d : Text) → contains arrival d ≡ contains domains d)
      × ((d : Text)
          → (lookup d s.collected.results ≡ (if contains domains d then resolve dns d else none))
            × (contains s.collected.failures d
                ≡ (contains domains d && not (is_some (resolve dns d)))))
unfolding resolve_many
Run-resolve_many dns domains c n s r over =
    let k = Run-Kept r (launch-Kept dns domains c) in
    let all_gone = k.out (k.ended over) in
    let jobs_shut : s.jobs_closed ≡ true = ground (arith, k.working, all_gone) in
    let same : (d : Text) → contains k.arrival d ≡ contains domains d = λ d. ground (
      arith,
      k.spread d,
      returned-held s.workers d all_gone,
      ap (λ l. contains l d) (k.jobs jobs_shut),
      contains-nil d,
    ) in
    (
      k.arrival,
      k.so_far,
      same,
      λ d.
          let (_, found, missing) = resolve_many_lem dns k.arrival d in
          rw (k.so_far, ← same d) (found, missing),
    )
