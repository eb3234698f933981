-- ===== src/Resolver/Pool/Count.antt =====
-- Every step of the pool uses up one of a number of steps that its state still has to do.
use request_blocker.Shared.{ℕ, suc, ◌+◌, ◌*◌, Bool, true, false, ◌≡◌, List, [], ◌∷◌, arith, length}
use request_blocker.Resolver.{Dns}
use request_blocker.Resolver.Pool.{
  Worker, waiting, looking, sending, returned, panicked, Pool, Turn, here, there, Step, give,
  look_up, report, panic, close_jobs, leave, close_out, end, Run, start, later,
}

abbrev pub todo : Worker → ℕ
todo waiting = 1
todo (looking d) = 3
todo (sending o) = 2
todo returned = 0
todo panicked = 1

abbrev pub todo_all : List Worker → ℕ
todo_all [] = 0
todo_all (w ∷ ws) = todo w + todo_all ws

abbrev pub unset : Bool → ℕ
unset true = 0
unset false = 1

abbrev pub steps_left : Pool → ℕ
steps_left s =
    3 * length s.left + todo_all s.workers + unset s.jobs_closed + unset s.out_closed + unset s.over

Turn-todo :
    {a b : Worker} {ws vs : List Worker}
    → Turn a b ws vs
    → todo_all vs + todo a ≡ todo_all ws + todo b
Turn-todo here = omega arith
Turn-todo (there t) = omega (arith, Turn-todo t)

Step-steps_left : {dns : Dns} {s t : Pool} → Step dns s t → suc (steps_left t) ≡ steps_left s
Step-steps_left (give e f t) = rw (e) (omega (arith, Turn-todo t))
Step-steps_left (look_up t) = omega (arith, Turn-todo t)
Step-steps_left (report e f t) = omega (arith, Turn-todo t)
Step-steps_left (panic f t) = omega (arith, Turn-todo t)
Step-steps_left (close_jobs e f) = rw (f) (omega arith)
Step-steps_left (leave e t) = omega (arith, Turn-todo t)
Step-steps_left (close_out e f) = rw (f) (omega arith)
Step-steps_left (end e f) = rw (f) (omega arith)

pub Run-steps_left :
    {dns : Dns} {s : Pool} {n : ℕ} {t : Pool} → Run dns s n t → n + steps_left t ≡ steps_left s
Run-steps_left start = omega arith
Run-steps_left (later r st) = omega (arith, Run-steps_left r, Step-steps_left st)
