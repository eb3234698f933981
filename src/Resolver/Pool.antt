-- ===== src/Resolver/Pool.antt =====
-- The goroutines of `ResolveMany`: the one that sends the jobs, the workers, the one that closes
-- `out`, and the loop that reads `out`. Both channels are unbuffered, so that a send and its
-- receive are one step.
pub mod Count
pub mod Kept
pub mod Progress
use request_blocker.Shared.{
  ℕ, zero, suc, Bool, true, false, ◌&&◌, ◌||◌, ◌≡◌, List, [], ◌∷◌, ◌<◌, if◌then◌else◌,
}
use request_blocker.Text.{Text, ℤ, pos, negsuc}
use request_blocker.Resolver.{Dns, Outcome, Outcomes, outcome, collect}

-- A worker waits for a job, looks up a domain, has an outcome to send, has returned, or has
-- panicked.
pub data Worker : Type 0 where
  waiting : Worker
  looking : Text → Worker
  sending : Outcome → Worker
  returned panicked : Worker

pub record Pool : Type 0 where
  -- the domains that the sender of jobs has left
  pub left : List Text
  pub jobs_closed : Bool
  pub workers : List Worker
  pub out_closed : Bool
  pub collected : Outcomes
  -- whether the loop that reads `out` is over, which then returns
  pub over : Bool

-- One of the workers goes from `a` to `b`.
pub data Turn (a b : Worker) : List Worker → List Worker → Type 0 where
  here : {ws : List Worker} → Turn a b (a ∷ ws) (b ∷ ws)
  there : {w : Worker} {ws vs : List Worker} → Turn a b ws vs → Turn a b (w ∷ ws) (w ∷ vs)

-- `wg.Wait` returns.
abbrev pub is_returned : Worker → Bool
is_returned waiting = false
is_returned (looking d) = false
is_returned (sending o) = false
is_returned returned = true
-- its `wg.Done` is deferred
is_returned panicked = true

abbrev pub all_returned : List Worker → Bool
all_returned [] = true
all_returned (w ∷ ws) = is_returned w && all_returned ws

abbrev pub is_panicked : Worker → Bool
is_panicked panicked = true
is_panicked _ = false

abbrev pub any_panicked : List Worker → Bool
any_panicked [] = false
any_panicked (w ∷ ws) = is_panicked w || any_panicked ws

pub data Step (dns : Dns) (s : Pool) : Pool → Type 0 where
  give :
      {d : Text} {ds : List Text} {ws : List Worker}
      → s.left ≡ d ∷ ds
      → s.jobs_closed ≡ false
      → Turn waiting (looking d) s.workers ws
      → Step dns s (record s { left = ds; workers = ws })
  look_up :
      {d : Text} {ws : List Worker}
      → Turn (looking d) (sending (outcome dns d)) s.workers ws
      → Step dns s (record s { workers = ws })
  report :
      {o : Outcome} {ws : List Worker}
      → s.out_closed ≡ false
      → s.over ≡ false
      → Turn (sending o) waiting s.workers ws
      → Step dns s (record s { workers = ws; collected = collect (o ∷ []) s.collected })
  -- a send on a closed channel
  panic :
      {o : Outcome} {ws : List Worker}
      → s.out_closed ≡ true
      → Turn (sending o) panicked s.workers ws
      → Step dns s (record s { workers = ws })
  close_jobs : s.left ≡ [] → s.jobs_closed ≡ false → Step dns s (record s { jobs_closed = true })
  leave :
      {ws : List Worker}
      → s.jobs_closed ≡ true
      → Turn waiting returned s.workers ws
      → Step dns s (record s { workers = ws })
  close_out :
      all_returned s.workers ≡ true
      → s.out_closed ≡ false
      → Step dns s (record s { out_closed = true })
  end : s.out_closed ≡ true → s.over ≡ false → Step dns s (record s { over = true })

-- A run of so many steps.
pub data Run (dns : Dns) (s : Pool) : ℕ → Pool → Type 0 where
  start : Run dns s 0 s
  later : {n : ℕ} {t u : Pool} → Run dns s n t → Step dns t u → Run dns s (suc n) u

-- `concurrency`, at least 1
unfoldable pub worker_count : ℤ → ℕ
worker_count (pos zero) = 1
worker_count (pos (suc n)) = suc n
worker_count (negsuc n) = 1

unfoldable pub spawn : ℕ → List Worker
spawn zero = []
spawn (suc n) = waiting ∷ spawn n

-- The state after the goroutines are started; without domains `ResolveMany` returns at once.
unfoldable pub launch : List Text → ℤ → Pool
unfolding worker_count spawn
launch [] concurrency = record {
  left = [];
  jobs_closed = true;
  workers = [];
  out_closed = true;
  collected = record { results = []; failures = [] };
  over = true;
}
launch (d ∷ ds) concurrency = record {
  left = d ∷ ds;
  jobs_closed = false;
  workers = spawn (worker_count concurrency);
  out_closed = false;
  collected = record { results = []; failures = [] };
  over = false;
}
