-- ===== src/Resolver/Pool/Kept.antt =====
-- What every step of the pool keeps: each domain is still to be given out, with a worker, or among
-- the outcomes that have arrived; the channels are closed in order.
use request_blocker.Shared.{
  Bool, true, false, ◌||◌, ◌≡◌, refl, sym, ap, ◌∙◌, List, [], ◌∷◌, ◌++◌, arith, list_eq, nat_eq,
  ◌==◌, All, contains, contains-nil, contains-cons, contains-append,
}
use request_blocker.Text.{Text}
use request_blocker.Resolver.{Dns, Outcome, Outcomes, outcome, outcomes, collect}
use request_blocker.Resolver.Pool.{
  Worker, waiting, looking, sending, returned, panicked, Pool, Turn, here, there, Step, give,
  look_up, report, panic, close_jobs, leave, close_out, end, is_returned, all_returned,
}

-- The domain that a worker has taken and not yet reported.
abbrev pub holds : Worker → Text → Bool
holds waiting d = false
holds (looking e) d = e == d
holds (sending o) d = o.domain == d
holds returned d = false
holds panicked d = false

abbrev pub held : List Worker → Text → Bool
held [] d = false
held (w ∷ ws) d = holds w d || held ws d

abbrev pub Honest : Dns → Worker → Type 0
Honest dns waiting = Unit
Honest dns (looking d) = Unit
Honest dns (sending o) = o ≡ outcome dns o.domain
Honest dns returned = Unit
Honest dns panicked = ⊥

abbrev pub nothing : Outcomes
nothing = record { results = []; failures = [] }

pub record Kept (dns : Dns) (domains : List Text) (s : Pool) : Type 0 where
  -- the domains of the outcomes so far
  pub arrival : List Text
  pub so_far : s.collected ≡ collect (outcomes dns arrival) nothing
  pub spread :
      (d : Text)
      → contains domains d ≡ (contains arrival d || (held s.workers d || contains s.left d))
  pub honest : All (Honest dns) s.workers
  pub jobs : s.jobs_closed ≡ true → s.left ≡ []
  pub working : s.jobs_closed ≡ false → all_returned s.workers ≡ false
  pub out : s.out_closed ≡ true → all_returned s.workers ≡ true
  pub ended : s.over ≡ true → s.out_closed ≡ true

outcomes-append :
    (dns : Dns) (xs ys : List Text) → outcomes dns (xs ++ ys) ≡ outcomes dns xs ++ outcomes dns ys
unfolding outcomes
outcomes-append dns [] ys = refl
outcomes-append dns (x ∷ xs) ys = rw (outcomes-append dns xs ys) refl

collect-append :
    (xs ys : List Outcome) (o : Outcomes) → collect (xs ++ ys) o ≡ collect ys (collect xs o)
unfolding collect
collect-append [] ys o = refl
collect-append (x ∷ xs) ys o = collect-append xs ys _

collect-arrival :
    (dns : Dns) (arrival : List Text) (d : Text)
    → collect (outcomes dns (arrival ++ d ∷ [])) nothing
      ≡ collect (outcome dns d ∷ []) (collect (outcomes dns arrival) nothing)
unfolding outcomes
collect-arrival dns arrival d =
    ap (λ os. collect os nothing) (outcomes-append dns arrival (d ∷ []))
    ∙ collect-append (outcomes dns arrival) (outcome dns d ∷ []) nothing

Turn-held :
    {a b : Worker} {ws vs : List Worker}
    → Turn a b ws vs
    → (d : Text)
    → (rest : Bool) × (held ws d ≡ (holds a d || rest)) × (held vs d ≡ (holds b d || rest))
Turn-held (here {ws}) d = (held ws d, refl, refl)
Turn-held {a} {b} (there {w} t) d =
    let (rest, before, after) = Turn-held t d in
    (holds w d || rest, ground (arith, before), ground (arith, after))

Turn-Honest :
    (dns : Dns) {a b : Worker} {ws vs : List Worker}
    → Turn a b ws vs
    → All (Honest dns) ws
    → (Honest dns a → Honest dns b)
    → All (Honest dns) vs
Turn-Honest dns here (p, ps) keep = (keep p, ps)
Turn-Honest dns (there t) (p, ps) keep = (p, Turn-Honest dns t ps keep)

Turn-sending :
    (dns : Dns) {o : Outcome} {b : Worker} {ws vs : List Worker}
    → Turn (sending o) b ws vs
    → All (Honest dns) ws
    → o ≡ outcome dns o.domain
Turn-sending dns here (p, ps) = p
Turn-sending dns (there t) (p, ps) = Turn-sending dns t ps

-- A worker that takes a step had not returned, and has not unless that is its step.
pub Turn-all_returned :
    {a b : Worker} {ws vs : List Worker}
    → Turn a b ws vs
    → is_returned a ≡ false
    → (all_returned ws ≡ false) × (is_returned b ≡ false → all_returned vs ≡ false)
Turn-all_returned here h = ground (arith, h)
Turn-all_returned (there t) h = ground (arith, Turn-all_returned t h)

pub Step-Kept :
    {dns : Dns} {s t : Pool} (domains : List Text)
    → Step dns s t
    → Kept dns domains s
    → Kept dns domains t
Step-Kept {dns} {s} domains (give {d} {ds} e f t) k = record {
  arrival = k.arrival;
  so_far = k.so_far;
  ended = k.ended;
  spread = λ x.
      let (rest, before, after) = Turn-held t x in
      ground (arith, k.spread x, before, after, e, contains-cons d ds x);
  honest = Turn-Honest dns t k.honest (λ _. tt);
  jobs = λ h. ground (arith, h, f);
  working = λ _. (Turn-all_returned t refl).1 refl;
  out = λ h. ground (arith, k.out h, Turn-all_returned t refl);
}
Step-Kept {dns} domains (look_up {d} t) k = record {
  arrival = k.arrival;
  so_far = k.so_far;
  jobs = k.jobs;
  ended = k.ended;
  spread =
      λ x. let (rest, before, after) = Turn-held t x in ground (arith, k.spread x, before, after);
  honest = Turn-Honest dns t k.honest (λ _. refl);
  working = λ _. (Turn-all_returned t refl).1 refl;
  out = λ h. ground (arith, k.out h, Turn-all_returned t refl);
}
Step-Kept {dns} {s} domains (report {o} e f t) k = record {
  jobs = k.jobs;
  ended = k.ended;
  arrival = k.arrival ++ o.domain ∷ [];
  so_far =
      let o_eq = Turn-sending dns t k.honest in
      ap (λ c. collect (o ∷ []) c) k.so_far
      ∙ ap (λ p. collect (p ∷ []) (collect (outcomes dns k.arrival) nothing)) o_eq
      ∙ sym (collect-arrival dns k.arrival o.domain);
  spread = λ x.
      let (rest, before, after) = Turn-held t x in
      ground (
        arith,
        k.spread x,
        before,
        after,
        contains-append k.arrival (o.domain ∷ []) x,
        contains-cons o.domain [] x,
        contains-nil x,
      );
  honest = Turn-Honest dns t k.honest (λ _. tt);
  working = λ _. (Turn-all_returned t refl).1 refl;
  out = λ h. ground (arith, k.out h, Turn-all_returned t refl);
}
Step-Kept domains (panic f t) k = absurd (ground (arith, k.out f, Turn-all_returned t refl))
Step-Kept domains (close_jobs e f) k = record {
  arrival = k.arrival;
  so_far = k.so_far;
  spread = k.spread;
  honest = k.honest;
  out = k.out;
  ended = k.ended;
  jobs = λ _. e;
  working = λ h. ground (arith, h);
}
Step-Kept {dns} domains (leave e t) k = record {
  arrival = k.arrival;
  so_far = k.so_far;
  jobs = k.jobs;
  ended = k.ended;
  spread =
      λ x. let (rest, before, after) = Turn-held t x in ground (arith, k.spread x, before, after);
  honest = Turn-Honest dns t k.honest (λ _. tt);
  working = λ h. ground (arith, h, e);
  out = λ h. ground (arith, k.out h, Turn-all_returned t refl);
}
Step-Kept domains (close_out e f) k = record {
  arrival = k.arrival;
  so_far = k.so_far;
  spread = k.spread;
  honest = k.honest;
  jobs = k.jobs;
  working = k.working;
  out = λ _. e;
  ended = λ _. refl;
}
Step-Kept domains (end e f) k = record {
  arrival = k.arrival;
  so_far = k.so_far;
  spread = k.spread;
  honest = k.honest;
  jobs = k.jobs;
  working = k.working;
  out = k.out;
  ended = λ _. e;
}
