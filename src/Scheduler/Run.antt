-- ===== src/Scheduler/Run.antt =====
-- The loop of run: a round on every branch.
use fatdog.Base.{
  ℕ, suc, ◌≡◌, refl, sym, ap, ◌∙◌, subst, List, ◌++◌, Option, none, some, Bool, true, false,
  if◌then◌else◌, arith, inl, inr, Bool-cases,
}
use fatdog.Base.Words.{add64, sub64}
use fatdog.Fiber.{hold, term, is_exec, is_term}
use fatdog.Scheduler.{
  FiberAndThread, Scheduler, Locals, Behaviour, ◌>>=◌, stopping, pick, round_on, round,
}
use fatdog.Scheduler.Round.{effect, Rounded, run_task-Rounded}
use fatdog.Scheduler.Between.{IsValid, one_more_less}

-- idle_fiber has run, or is over: Scheduler::idle ends where the scheduler stops.
pub record Idled {W : Type 0} (s : Scheduler W) (l : Locals) (s' : Scheduler W) (l' : Locals)
    : Type 0 where
  pub valid : IsValid s' l'
  pub queue : s'.fibers ≡ s.fibers
  pub heap : s'.heap ≡ s.heap
  pub world : s'.world ≡ s.world
  pub active : s'.active_count ≡ s.active_count
  pub flag : s'.is_stopping ≡ s.is_stopping
  pub idle_state :
      l'.idle_state
      ≡ (if is_term l.idle_state then l.idle_state else if stopping s then term else hold)
  pub cb_fiber : l'.cb_fiber ≡ l.cb_fiber

idle_again : (b : Bool) → is_exec (if b then term else hold) ≡ false
idle_again true = refl
idle_again false = refl

module _ {W : Type 0} (behave : Behaviour W) (self : ℕ) where
  -- A round by what the search has found.
  abbrev pub Played :
      Scheduler W
      → Locals
      → Option (FiberAndThread × List FiberAndThread)
      → Bool
      → Scheduler W
      → Locals
      → Type 0
  Played s l (some (e, rest)) over s' l' =
      (over ≡ false) × Rounded behave s rest (effect behave s l e.fiber e.cb) s' l'
  Played s l none over s' l' = (over ≡ is_term l.idle_state) × Idled s l s' l'

  module _ (s : Scheduler W) (l : Locals) (v : IsValid s l) where
    abbrev searched : Bool → Scheduler W
    searched tickle = record s { tickles = if tickle then suc s.tickles else s.tickles }

    searched-IsValid : (tickle : Bool) → IsValid (searched tickle) l
    searched-IsValid tickle = record {
      free = v.free;
      idle_free = v.idle_free;
      reusable = v.reusable;
      few_active = v.few_active;
      few_idle = v.few_idle;
    }

    abbrev Answer :
        Option (FiberAndThread × List FiberAndThread)
        → Option (Bool × Scheduler W × Locals)
        → Type 0
    Answer found o =
        (over : Bool) × (s' : Scheduler W) × (l' : Locals) × (o ≡ some (over, s', l'))
        × Played s l found over s' l'

    stopping-searched : (tickle : Bool) → stopping (searched tickle) ≡ stopping s
    unfolding stopping
    stopping-searched tickle = refl

    same_effect :
        (tickle : Bool) (fib cb : Option ℕ)
        → effect behave (searched tickle) l fib cb ≡ effect behave s l fib cb
    same_effect tickle none none = refl
    same_effect tickle none (some f) = refl
    same_effect tickle (some a) none = refl
    same_effect tickle (some a) (some f) = refl

    found-Played :
        (tickle : Bool) (found : Option (FiberAndThread × List FiberAndThread))
        → Answer found (round_on behave l (searched tickle) found)
    found-Played tickle (some (e, rest)) =
        let (s', l', ran, r) =
          run_task-Rounded behave (searched tickle) l (searched-IsValid tickle) rest e e.fiber in
        (
          false,
          s',
          l',
          ap (λ o. o >>= λ r. some (false, r.0, r.1)) ran,
          (
            refl,
            record {
              valid = r.valid;
              queue =
                  r.queue
                  ∙ ap (λ (x : List FiberAndThread × W). rest ++ x.0)
                      (same_effect tickle e.fiber e.cb);
              world =
                  r.world
                  ∙ ap (λ (x : List FiberAndThread × W). x.1) (same_effect tickle e.fiber e.cb);
              active = r.active;
              flag = r.flag;
            },
          ),
        )
    found-Played tickle none = elim (Bool-cases (is_term l.idle_state)) [
      | inl over ↦ (
        true,
        searched tickle,
        l,
        rw over refl,
        (
          sym over,
          record {
            valid = searched-IsValid tickle;
            queue = refl;
            heap = refl;
            world = refl;
            active = refl;
            flag = refl;
            idle_state = rw over refl;
            cb_fiber = refl;
          },
        ),
      )
      | inr live ↦ (
        false,
        record (searched tickle) { idle_count = sub64 (add64 s.idle_count 1) 1 },
        record l { idle_state = if stopping (searched tickle) then term else hold },
        rw (live, v.idle_free) refl,
        (
          sym live,
          record {
            valid = record {
              free = v.free;
              idle_free = idle_again (stopping (searched tickle));
              reusable = v.reusable;
              few_active = v.few_active;
              few_idle = omega (arith, one_more_less s.idle_count v.few_idle, v.few_idle);
            };
            queue = refl;
            heap = refl;
            world = refl;
            active = refl;
            flag = refl;
            idle_state = rw live (ap (λ b. if b then term else hold) (stopping-searched tickle));
            cb_fiber = refl;
          },
        ),
      )
    ]

    -- In a state in which no fiber is in EXEC, cb_fiber can be reset and the thread counts have
    -- room for one, a round of the loop of run passes every assertion of swapIn, reset and the
    -- yields, whatever the code of the fibers does, and such a state is behind it. With a task
    -- found, run goes on: the task is out of the queue, and at its end are the tasks that its
    -- code schedules and then the fiber itself where it yields to READY; the world is as the
    -- code leaves it, and as many threads count as active as before. Without one, run is over
    -- just where idle_fiber is in TERM; otherwise idle_fiber runs, and is in TERM behind it
    -- where the scheduler stops and in HOLD where not, and queue, fibers and world are as they
    -- were.
    pub round-Played : Answer (pick self s.heap s.fibers).1 (round behave self s l)
    unfolding round
    round-Played = found-Played (pick self s.heap s.fibers).0 (pick self s.heap s.fibers).1

    -- The same, where the result of the search is known.
    pub round_found :
        (found : Option (FiberAndThread × List FiberAndThread))
        → (pick self s.heap s.fibers).1 ≡ found
        → Answer found (round behave self s l)
    round_found found h = subst (λ found. Answer found (round behave self s l)) h round-Played
