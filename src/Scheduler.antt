-- ===== src/Scheduler.antt =====
-- fatdog/scheduler.cpp and scheduler.h: the queue of tasks, and the loop of a thread over it. What
-- the functions of the fibers do is a parameter, on a state of the world that is handed on.
pub mod Pick
pub mod Swap
pub mod Between
pub mod Round
pub mod Run
pub mod Finish
mod Runs
use fatdog.Base.{
  ℕ, zero, suc, ◌+◌, ◌^◌, List, [], ◌∷◌, ◌++◌, Option, none, some, Bool, true, false, not, ◌==◌,
  if◌then◌else◌, ◌&&◌,
}
use fatdog.Base.Words.{add64, sub64}
use fatdog.Fiber.{
  State, hold, term, Fiber, new_fiber, is_exec, is_init, is_ready, is_over, is_term, swap_in, reset,
  Stop, throws, stopped,
}

-- FiberAndThread: a fiber by its id, or a function, and the thread that is to run it, none for -1.
pub record FiberAndThread : Type 0 where
  pub fiber : Option ℕ
  pub cb : Option ℕ
  pub thread : Option ℕ

-- `tickles` counts the calls of tickle, which is virtual. `last_id` is s_fiber_id, and `heap` has
-- the fibers by their ids.
pub record Scheduler (W : Type 0) : Type 0 where
  pub fibers : List FiberAndThread
  pub active_count : ℕ
  pub idle_count : ℕ
  pub is_stopping : Bool
  pub tickles : ℕ
  pub heap : ℕ → Fiber
  pub last_id : ℕ
  pub world : W

-- The variables of run: the state of idle_fiber, and cb_fiber.
pub record Locals : Type 0 where
  pub idle_state : State
  pub cb_fiber : Option ℕ

-- What a fiber does until it gives the thread back: the tasks that it schedules, and how it stops.
pub record Ran (W : Type 0) : Type 0 where
  pub stop : Stop
  pub scheduled : List FiberAndThread
  pub world : W

-- By the id of the fiber, and the fiber as it is ahead of swapIn.
abbrev pub Behaviour : Type 0 → Type 0
Behaviour W = ℕ → Fiber → W → Ran W

abbrev pub is_some : Option ℕ → Bool
is_some none = false
is_some (some a) = true

abbrev pub is_empty : List FiberAndThread → Bool
is_empty [] = true
is_empty (e ∷ es) = false

abbrev pub is_task : FiberAndThread → Bool
is_task e = if is_some e.fiber then true else is_some e.cb

abbrev pub set_fiber : ℕ → Fiber → (ℕ → Fiber) → ℕ → Fiber
set_fiber a f heap x = if x == a then f else heap x

infixl 5 ◌>>=◌
abbrev pub ◌>>=◌ {ℓ κ} : {A : Type ℓ} {B : Type κ} → Option A → (A → Option B) → Option B
none >>= f = none
some a >>= f = f a

-- schedule(f, thread)
unfoldable pub schedule : {W : Type 0} → FiberAndThread → Scheduler W → Scheduler W
schedule e s = record s {
  fibers = if is_task e then s.fibers ++ e ∷ [] else s.fibers;
  tickles = if is_empty s.fibers then suc s.tickles else s.tickles;
}

-- A row of calls of schedule.
unfoldable pub schedule_all : {W : Type 0} → List FiberAndThread → Scheduler W → Scheduler W
schedule_all [] s = s
schedule_all (e ∷ es) s = schedule_all es (schedule e s)

-- Scheduler::stopping()
unfoldable pub stopping : {W : Type 0} → Scheduler W → Bool
stopping s = s.is_stopping && is_empty s.fibers && (s.active_count == 0)

-- it->thread != -1 && it->thread != GetThreadId()
abbrev pub is_for_other : ℕ → Option ℕ → Bool
is_for_other self none = false
is_for_other self (some t) = not (t == self)

-- it->fiber && it->fiber->getState() == EXEC
abbrev pub is_executing : (ℕ → Fiber) → Option ℕ → Bool
is_executing heap none = false
is_executing heap (some a) = is_exec (heap a).state

abbrev pub kept :
    FiberAndThread
    → Option (FiberAndThread × List FiberAndThread)
    → Option (FiberAndThread × List FiberAndThread)
kept e none = none
kept e (some (f, es)) = some (f, e ∷ es)

-- The loop of run over the queue: whether to tickle, and the task with the queue behind its erase.
unfoldable pub pick :
    ℕ → (ℕ → Fiber) → List FiberAndThread → Bool × Option (FiberAndThread × List FiberAndThread)
pick self heap [] = (false, none)
pick self heap (e ∷ es) =
    let rest = pick self heap es in
    if is_for_other self e.thread
    then (true, kept e rest.1)
    else if is_executing heap e.fiber
    then (rest.0, kept e rest.1)
    else (false, some (e, es))

-- What the code of a fiber does: MainFunc calls an empty function, which throws, or the code goes on.
abbrev pub code : {W : Type 0} → Behaviour W → ℕ → Fiber → W → Ran W
code behave a f w =
    if is_init f.state && not (is_some f.cb)
    then record { stop = throws; scheduled = []; world = w }
    else behave a f w

-- swapIn of the fiber with the id, until it is swapped out.
abbrev pub swapped : {W : Type 0} → ℕ → Ran W → Scheduler W → Fiber → Option (Scheduler W)
swapped a r s f = stopped r.stop f >>= λ g.
    some (record (schedule_all r.scheduled s) { heap = set_fiber a g s.heap; world = r.world })

unfoldable pub swap : {W : Type 0} → Behaviour W → ℕ → Scheduler W → Option (Scheduler W)
swap behave a s = swap_in (s.heap a) >>= swapped a (code behave a (s.heap a) s.world) s

abbrev pub less_active : {W : Type 0} → Scheduler W → Scheduler W
less_active s = record s { active_count = sub64 s.active_count 1 }

-- The task of the fiber itself.
abbrev pub fiber_task : ℕ → FiberAndThread
fiber_task a = record { fiber = some a; cb = none; thread = none }

abbrev pub held : {W : Type 0} → ℕ → Scheduler W → Scheduler W
held a s = record s { heap = set_fiber a (record (s.heap a) { state = hold }) s.heap }

-- The branch of run for a fiber, behind its swapIn.
abbrev pub fiber_done : {W : Type 0} → ℕ → Scheduler W → Scheduler W
fiber_done a s =
    if is_ready (s.heap a).state
    then schedule (fiber_task a) s
    else if is_over (s.heap a).state
    then s
    else held a s

-- The branch of run for a function, behind the swapIn of cb_fiber.
abbrev pub cb_done : {W : Type 0} → ℕ → Locals → Scheduler W → Option (Scheduler W × Locals)
cb_done a l s =
    if is_ready (s.heap a).state
    then some (schedule (fiber_task a) s, record l { cb_fiber = none })
    else if is_over (s.heap a).state
    then (reset none (s.heap a) >>= λ f.
        some (record s { heap = set_fiber a f s.heap }, record l { cb_fiber = some a }))
    else some (held a s, record l { cb_fiber = none })

-- cb_fiber, with the function.
abbrev pub take_cb_fiber : {W : Type 0} → ℕ → Option ℕ → Scheduler W → Option (ℕ × Scheduler W)
take_cb_fiber f (some a) s =
    reset (some f) (s.heap a) >>= λ g. some (a, record s { heap = set_fiber a g s.heap })
take_cb_fiber f none s = some (
  suc s.last_id,
  record s { heap = set_fiber (suc s.last_id) (new_fiber f) s.heap; last_id = suc s.last_id },
)

abbrev pub run_cb :
    {W : Type 0} → Behaviour W → Locals → Scheduler W → Option ℕ → Option (Scheduler W × Locals)
run_cb behave l s none = some (less_active s, l)
run_cb behave l s (some f) =
    take_cb_fiber f l.cb_fiber s >>= λ r. swap behave r.0 r.1 >>= λ s. cb_done r.0 l (less_active s)

-- The branches of run for a task that was found.
abbrev pub run_task :
    {W : Type 0}
    → Behaviour W
    → Locals
    → Scheduler W
    → FiberAndThread
    → Option ℕ
    → Option (Scheduler W × Locals)
run_task behave l s e none = run_cb behave l s e.cb
run_task behave l s e (some a) =
    if is_over (s.heap a).state
    then run_cb behave l s e.cb
    else (swap behave a s >>= λ s. some (fiber_done a (less_active s), l))

-- swapIn of idle_fiber, which runs Scheduler::idle.
abbrev pub run_idle : {W : Type 0} → Locals → Scheduler W → Option (Scheduler W × Locals)
run_idle l s =
    if is_exec l.idle_state
    then none
    else some (
      record s { idle_count = sub64 (add64 s.idle_count 1) 1 },
      record l { idle_state = if stopping s then term else hold },
    )

-- What follows the search: whether run is over, and the state behind the round.
abbrev pub round_on :
    {W : Type 0}
    → Behaviour W
    → Locals
    → Scheduler W
    → Option (FiberAndThread × List FiberAndThread)
    → Option (Bool × Scheduler W × Locals)
round_on behave l s (some (e, rest)) =
    run_task behave l (record s { fibers = rest; active_count = add64 s.active_count 1 }) e e.fiber
    >>= λ r. some (false, r.0, r.1)
round_on behave l s none =
    if is_term l.idle_state
    then some (true, s, l)
    else (run_idle l s >>= λ r. some (false, r.0, r.1))

-- A round of the loop of run; none where an assertion fails.
unfoldable pub round :
    {W : Type 0} → Behaviour W → ℕ → Scheduler W → Locals → Option (Bool × Scheduler W × Locals)
round behave self s l =
    let found = pick self s.heap s.fibers in
    round_on behave l (record s { tickles = if found.0 then suc s.tickles else s.tickles }) found.1

abbrev pub next_round :
    {W : Type 0}
    → (Scheduler W → Locals → Option (Bool × Scheduler W × Locals))
    → Bool × Scheduler W × Locals
    → Option (Bool × Scheduler W × Locals)
next_round rest (true, s, l) = some (true, s, l)
next_round rest (false, s, l) = rest s l

-- run(), for at most `n` rounds: whether it is over.
unfoldable pub run :
    {W : Type 0} → Behaviour W → ℕ → ℕ → Scheduler W → Locals → Option (Bool × Scheduler W × Locals)
run behave self zero s l = some (false, s, l)
run behave self (suc n) s l = round behave self s l >>= next_round (run behave self n)
