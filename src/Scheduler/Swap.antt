-- ===== src/Scheduler/Swap.antt =====
-- A fiber that runs until it is swapped out, and what run does with it then.
use fatdog.Base.{
  ℕ, ◌≡◌, refl, sym, ap, ◌∙◌, subst, List, [], ◌∷◌, ◌++◌, append_assoc, append-nil, Option, none,
  some, Bool, true, false, ◌==◌, if◌then◌else◌, arith,
}
use fatdog.Fiber.{
  init, hold, exec, term, ready, except, Fiber, is_exec, is_ready, is_over, swap_in, yield_to_ready,
  yield_to_hold, main_func, reset, Stop, yields_ready, yields_hold, finishes, throws, swaps_out,
  stopped,
}
use fatdog.Scheduler.{
  FiberAndThread, Scheduler, Ran, Behaviour, is_task, set_fiber, ◌>>=◌, schedule, schedule_all,
  code, swapped, swap, fiber_task, fiber_done, Locals, cb_done,
}

-- The fiber behind its swapOut, and behind what run then does with it.
abbrev pub after : Stop → Fiber → Fiber
after yields_ready f = record { cb = f.cb; state = ready }
after yields_hold f = record { cb = f.cb; state = hold }
after finishes f = record { cb = none; state = term }
after throws f = record { cb = f.cb; state = except }
after swaps_out f = record { cb = f.cb; state = exec }

abbrev pub settled : Stop → Fiber → Fiber
settled yields_ready f = record { cb = f.cb; state = ready }
settled yields_hold f = record { cb = f.cb; state = hold }
settled finishes f = record { cb = none; state = term }
settled throws f = record { cb = f.cb; state = except }
settled swaps_out f = record { cb = f.cb; state = hold }

-- cb_fiber behind the round, and whether run keeps it.
abbrev pub cb_settled : Stop → Fiber → Fiber
cb_settled yields_ready f = settled yields_ready f
cb_settled yields_hold f = settled yields_hold f
cb_settled finishes f = record { cb = none; state = init }
cb_settled throws f = record { cb = none; state = init }
cb_settled swaps_out f = settled swaps_out f

abbrev pub cb_kept : ℕ → Stop → Option ℕ
cb_kept a yields_ready = none
cb_kept a yields_hold = none
cb_kept a finishes = some a
cb_kept a throws = some a
cb_kept a swaps_out = none

-- The task that is queued again for a fiber that stops so.
abbrev pub requeued : ℕ → Stop → List FiberAndThread
requeued a yields_ready = fiber_task a ∷ []
requeued a yields_hold = []
requeued a finishes = []
requeued a throws = []
requeued a swaps_out = []

-- The tasks among what is scheduled.
abbrev pub tasks : List FiberAndThread → List FiberAndThread
tasks [] = []
tasks (e ∷ es) = (if is_task e then e ∷ [] else []) ++ tasks es

stopped_lem :
    (stop : Stop) (f : Fiber) → stopped stop (record f { state = exec }) ≡ some (after stop f)
unfolding stopped yield_to_ready yield_to_hold main_func
stopped_lem yields_ready f = refl
stopped_lem yields_hold f = refl
stopped_lem finishes f = refl
stopped_lem throws f = refl
stopped_lem swaps_out f = refl

pub settled-is_exec : (stop : Stop) (f : Fiber) → is_exec (settled stop f).state ≡ false
settled-is_exec yields_ready f = refl
settled-is_exec yields_hold f = refl
settled-is_exec finishes f = refl
settled-is_exec throws f = refl
settled-is_exec swaps_out f = refl

pub set_fiber_same : (a : ℕ) (f : Fiber) (heap : ℕ → Fiber) → set_fiber a f heap a ≡ f
set_fiber_same a f heap = if_same a f (heap a)
  where
    if_same : (a : ℕ) (f g : Fiber) → (if a == a then f else g) ≡ f
    if_same a f g = ground arith

if_append :
    (b : Bool) (e : FiberAndThread) (es : List FiberAndThread)
    → (if b then es ++ e ∷ [] else es) ≡ es ++ (if b then e ∷ [] else [])
if_append true e es = refl
if_append false e es = sym (append-nil es)

module _ {W : Type 0} where
  -- The counts and the flags are as they were.
  pub record Steady (s s' : Scheduler W) : Type 0 where
    pub active : s'.active_count ≡ s.active_count
    pub idle : s'.idle_count ≡ s.idle_count
    pub flag : s'.is_stopping ≡ s.is_stopping
    pub ids : s'.last_id ≡ s.last_id

  pub Steady-trans : {s t u : Scheduler W} → Steady s t → Steady t u → Steady s u
  Steady-trans h k = record {
    active = k.active ∙ h.active;
    idle = k.idle ∙ h.idle;
    flag = k.flag ∙ h.flag;
    ids = k.ids ∙ h.ids;
  }

  -- Tasks are at the end of the queue.
  pub record Queued (es : List FiberAndThread) (s s' : Scheduler W) : Type 0 where
    pub queue : s'.fibers ≡ s.fibers ++ es
    pub heap : s'.heap ≡ s.heap
    pub world : s'.world ≡ s.world
    pub steady : Steady s s'

  pub schedule-Queued :
      (e : FiberAndThread) (s : Scheduler W)
      → Queued (if is_task e then e ∷ [] else []) s (schedule e s)
  unfolding schedule
  schedule-Queued e s = record {
    queue = if_append (is_task e) e s.fibers;
    heap = refl;
    world = refl;
    steady = record { active = refl; idle = refl; flag = refl; ids = refl };
  }

  pub schedule_all-Queued :
      (es : List FiberAndThread) (s : Scheduler W) → Queued (tasks es) s (schedule_all es s)
  unfolding schedule_all
  schedule_all-Queued [] s = record {
    queue = sym (append-nil s.fibers);
    heap = refl;
    world = refl;
    steady = record { active = refl; idle = refl; flag = refl; ids = refl };
  }
  schedule_all-Queued (e ∷ es) s =
      let first = schedule-Queued e s in
      let rest = schedule_all-Queued es (schedule e s) in
      record {
        queue =
            rest.queue
            ∙ ap (λ q. q ++ tasks es) first.queue
            ∙ append_assoc s.fibers (if is_task e then e ∷ [] else []) (tasks es);
        heap = rest.heap ∙ first.heap;
        world = rest.world ∙ first.world;
        steady = Steady-trans first.steady rest.steady;
      }

  -- The fiber is left so, and tasks are queued.
  pub record Done (a : ℕ) (added : List FiberAndThread) (g : Fiber) (s s' : Scheduler W)
      : Type 0 where
    pub queue : s'.fibers ≡ s.fibers ++ added
    pub at : s'.heap a ≡ g
    pub others : (x : ℕ) → (x == a) ≡ false → s'.heap x ≡ s.heap x
    pub world : s'.world ≡ s.world
    pub steady : Steady s s'

  module _ (a : ℕ) (g : Fiber) (s : Scheduler W) where
    unchanged-Done : s.heap a ≡ g → Done a [] g s s
    unchanged-Done h = record {
      queue = sym (append-nil s.fibers);
      at = h;
      others = λ x o. refl;
      world = refl;
      steady = record { active = refl; idle = refl; flag = refl; ids = refl };
    }

    put-Done : Done a [] g s (record s { heap = set_fiber a g s.heap })
    put-Done = record {
      queue = sym (append-nil s.fibers);
      at = set_fiber_same a g s.heap;
      others = λ x o. rw o refl;
      world = refl;
      steady = record { active = refl; idle = refl; flag = refl; ids = refl };
    }

    queued-Done : s.heap a ≡ g → Done a (fiber_task a ∷ []) g s (schedule (fiber_task a) s)
    queued-Done h =
        let queued = schedule-Queued (fiber_task a) s in
        record {
          queue = queued.queue;
          at = ap (λ (k : ℕ → Fiber). k a) queued.heap ∙ h;
          others = λ x o. ap (λ (k : ℕ → Fiber). k x) queued.heap;
          world = queued.world;
          steady = queued.steady;
        }

  -- What run does with a fiber that was swapped out.
  pub fiber_done-Done :
      (a : ℕ) (stop : Stop) (f : Fiber) (s : Scheduler W)
      → s.heap a ≡ after stop f
      → Done a (requeued a stop) (settled stop f) s (fiber_done a s)
  fiber_done-Done a stop f s h =
      subst (λ g. Done a (requeued a stop) (settled stop f) s (on g)) (sym h) (on-Done stop h)
    where
      on : Fiber → Scheduler W
      on g =
          if is_ready g.state
          then schedule (fiber_task a) s
          else if is_over g.state
          then s
          else record s { heap = set_fiber a (record g { state = hold }) s.heap }

      on-Done :
          (stop : Stop)
          → s.heap a ≡ after stop f
          → Done a (requeued a stop) (settled stop f) s (on (after stop f))
      on-Done yields_ready h = queued-Done a (settled yields_ready f) s h
      on-Done yields_hold h = put-Done a (settled yields_hold f) s
      on-Done finishes h = unchanged-Done a (settled finishes f) s h
      on-Done throws h = unchanged-Done a (settled throws f) s h
      on-Done swaps_out h = put-Done a (settled swaps_out f) s

  -- What it does with cb_fiber.
  pub cb_done-Done :
      (a : ℕ) (stop : Stop) (f : Fiber) (l : Locals) (s : Scheduler W)
      → s.heap a ≡ after stop f
      → (s' : Scheduler W) × (cb_done a l s ≡ some (s', record l { cb_fiber = cb_kept a stop }))
        × Done a (requeued a stop) (cb_settled stop f) s s'
  unfolding reset
  cb_done-Done a stop f l s h = subst Goal (sym h) (on-Done stop h)
    where
      on : Fiber → Option (Scheduler W × Locals)
      on g =
          if is_ready g.state
          then some (schedule (fiber_task a) s, record l { cb_fiber = none })
          else if is_over g.state
          then (reset none g >>= λ f.
              some (record s { heap = set_fiber a f s.heap }, record l { cb_fiber = some a }))
          else some (
            record s { heap = set_fiber a (record g { state = hold }) s.heap },
            record l { cb_fiber = none },
          )

      Answer : Stop → Fiber → Type 0
      Answer stop g =
          (s' : Scheduler W) × (on g ≡ some (s', record l { cb_fiber = cb_kept a stop }))
          × Done a (requeued a stop) (cb_settled stop f) s s'

      Goal : Fiber → Type 0
      Goal g = Answer stop g

      on-Done : (stop : Stop) → s.heap a ≡ after stop f → Answer stop (after stop f)
      on-Done yields_ready h =
          (schedule (fiber_task a) s, refl, queued-Done a (settled yields_ready f) s h)
      on-Done yields_hold h = (_, refl, put-Done a (settled yields_hold f) s)
      on-Done finishes h = (_, refl, put-Done a (cb_settled finishes f) s)
      on-Done throws h = (_, refl, put-Done a (cb_settled throws f) s)
      on-Done swaps_out h = (_, refl, put-Done a (settled swaps_out f) s)

  -- A fiber has run: its code's tasks are queued, and it has stopped.
  pub record Swapped (a : ℕ) (r : Ran W) (s s' : Scheduler W) : Type 0 where
    pub queue : s'.fibers ≡ s.fibers ++ tasks r.scheduled
    pub heap : s'.heap ≡ set_fiber a (after r.stop (s.heap a)) s.heap
    pub world : s'.world ≡ r.world
    pub steady : Steady s s'

  pub swap-Swapped :
      (behave : Behaviour W) (a : ℕ) (s : Scheduler W)
      → is_exec (s.heap a).state ≡ false
      → (s' : Scheduler W) × (swap behave a s ≡ some s')
        × Swapped a (code behave a (s.heap a) s.world) s s'
  unfolding swap swap_in
  swap-Swapped behave a s free =
      let r = code behave a (s.heap a) s.world in
      let queued = schedule_all-Queued r.scheduled s in
      (
        record (schedule_all r.scheduled s) {
          heap = set_fiber a (after r.stop (s.heap a)) s.heap;
          world = r.world;
        },
        ap
              (λ (b : Bool).
                (if b then none else some (record (s.heap a) { state = exec })) >>= swapped a r s)
              free
            ∙ ap
                (λ f. f >>= λ g. some (record (schedule_all r.scheduled s) {
                  heap = set_fiber a g s.heap;
                  world = r.world;
                }))
                (stopped_lem r.stop (s.heap a)),
        record {
          queue = queued.queue;
          heap = refl;
          world = refl;
          steady = record {
            active = queued.steady.active;
            idle = queued.steady.idle;
            flag = queued.steady.flag;
            ids = queued.steady.ids;
          };
        },
      )
