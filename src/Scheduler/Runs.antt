-- ===== src/Scheduler/Runs.antt =====
-- The theorems on the scheduler at a concrete input: fibers that yield while the world has work.
use fatdog.Base.{
  ℕ, zero, suc, ◌≡◌, refl, [], ◌∷◌, none, some, Bool, true, arith, All, length, ◌≤◌, ap, ◌+◌, ◌++◌,
}
use fatdog.Fiber.{init, Fiber, yields_ready, finishes}
use fatdog.Scheduler.{FiberAndThread, Scheduler, Locals, Behaviour, pick, round, run, is_some}
use fatdog.Scheduler.Pick.{Found, pick-Picked}
use fatdog.Scheduler.Between.{IsValid}
use fatdog.Scheduler.Swap.{tasks, requeued}
use mathlib.Core.Bool.{false≢true}
use fatdog.Scheduler.Run.{Played, round-Played}
use fatdog.Scheduler.Finish.{IsOwn, IsBounded, Finished, run-Finished}

abbrev behave : Behaviour ℕ
behave a f zero = record { stop = finishes; scheduled = []; world = zero }
behave a f (suc w) = record { stop = yields_ready; scheduled = []; world = w }

abbrev work : ℕ → ℕ
work w = w

behave-IsBounded : IsBounded behave 1 work
behave-IsBounded = record { less = less; own = own }
  where
    less :
        (a : ℕ) (f : Fiber) (w : ℕ)
        → length (tasks (behave a f w).scheduled ++ requeued a (behave a f w).stop)
            + work (behave a f w).world
          ≤ work w
    less a f zero = omega arith
    less a f (suc w) = omega arith

    own : (a : ℕ) (f : Fiber) (w : ℕ) → All (IsOwn 1) (behave a f w).scheduled
    own a f zero = tt
    own a f (suc w) = tt

abbrev new_heap : ℕ → Fiber
new_heap a = record { cb = some a; state = init }

-- The function 7, for any thread.
abbrev function_task : FiberAndThread
function_task = record { fiber = none; cb = some 7; thread = none }

-- The fiber 3, for thread 2.
abbrev other_task : FiberAndThread
other_task = record { fiber = some 3; cb = none; thread = some 2 }

abbrev own_task : FiberAndThread
own_task = record { fiber = some 3; cb = none; thread = some 1 }

abbrev scheduler : Scheduler ℕ
scheduler = record {
  fibers = own_task ∷ function_task ∷ [];
  active_count = 0;
  idle_count = 0;
  is_stopping = true;
  tickles = 0;
  heap = new_heap;
  last_id = 3;
  world = 2;
}

abbrev locals : Locals
locals = record { idle_state = init; cb_fiber = none }

scheduler-IsValid : IsValid scheduler locals
scheduler-IsValid = record {
  free = λ a. refl;
  idle_free = refl;
  reusable = λ a e. absurd (false≢true (ap is_some e));
  few_active = omega arith;
  few_idle = omega arith;
}

pick-Picked_example :
    Found 1 new_heap
      (other_task ∷ own_task ∷ function_task ∷ [])
      true
      own_task
      (other_task ∷ function_task ∷ [])
unfolding pick
pick-Picked_example = pick-Picked 1 new_heap (other_task ∷ own_task ∷ function_task ∷ [])

round-Played_example :
    (over : Bool) × (s' : Scheduler ℕ) × (l' : Locals) × (round behave 1 scheduler locals
      ≡ some (over, s', l'))
    × Played behave 1 scheduler locals (some (own_task, function_task ∷ [])) over s' l'
unfolding pick
round-Played_example = round-Played behave 1 scheduler locals scheduler-IsValid

run-Finished_example :
    (over : Bool) × (s' : Scheduler ℕ) × (l' : Locals) × (run behave 1 6 scheduler locals
      ≡ some (over, s', l'))
    × Finished behave 1 work behave-IsBounded scheduler over s' l'
run-Finished_example =
    run-Finished behave 1 work behave-IsBounded 4 scheduler locals scheduler-IsValid refl refl
      (refl, (refl, tt)) (omega arith)
