-- ===== src/Resolver/Tests.antt =====
-- Tests of the resolver.
use request_blocker.Shared.{
  false, ◌≡◌, refl, true, length, ◌≤◌, ◌*◌, ◌+◌, ◌⊎◌, not, ◌&&◌, none, some, is_some, [], ◌∷◌, List,
  list_eq, nat_eq, contains, lookup, if◌then◌else◌,
}
use request_blocker.Text.{Text, codes, pos}
use request_blocker.Validate.Address.{from4}
use request_blocker.Resolver.{Dns, outcome, collect, resolve, resolve_many}
use request_blocker.Resolver.Pool.{
  any_panicked, returned, Pool, Step, give, look_up, report, close_jobs, leave, close_out, end,
  here, Run, start, later, worker_count, spawn, launch,
}
use request_blocker.Resolver.Pool.Progress.{Run-progress, Run-resolve_many}

abbrev dns : Dns
dns [] = none
dns (c ∷ cs) = some (from4 (record { a = 10; b = 0; c = 0; d = 5 }) ∷ [])

abbrev names : List Text
names = codes "b.com" ∷ [] ∷ codes "a.com" ∷ []

-- One domain and one worker.
abbrev finished : Pool
finished = record {
  left = [];
  jobs_closed = true;
  workers = returned ∷ [];
  out_closed = true;
  collected = collect (outcome dns (codes "a.com") ∷ []) (record { results = []; failures = [] });
  over = true;
}

one_run : Run dns (launch (codes "a.com" ∷ []) (pos 0)) 7 finished
unfolding launch worker_count spawn
one_run =
    later
      (later
        (later
          (later
            (later (later (later start (give refl refl here)) (look_up here))
              (report refl refl here))
            (close_jobs refl refl))
          (leave refl here))
        (close_out refl refl))
      (end refl refl)

Run-progress_example :
    (7 ≤ 3 * length (codes "a.com" ∷ []) + worker_count (pos 0) + 3)
    × ((finished.over ≡ true) ⊎ ((t : Pool) × Step dns finished t))
    × (any_panicked finished.workers ≡ false)
Run-progress_example = Run-progress dns (codes "a.com" ∷ []) (pos 0) 7 finished one_run

Run-resolve_many_example :
    (arrival : List Text) × (finished.collected ≡ resolve_many dns arrival)
    × ((d : Text) → contains arrival d ≡ contains (codes "a.com" ∷ []) d)
    × ((d : Text)
        → (lookup d finished.collected.results
            ≡ (if contains (codes "a.com" ∷ []) d then resolve dns d else none))
          × (contains finished.collected.failures d
              ≡ (contains (codes "a.com" ∷ []) d && not (is_some (resolve dns d)))))
Run-resolve_many_example = Run-resolve_many dns (codes "a.com" ∷ []) (pos 0) 7 finished one_run refl
