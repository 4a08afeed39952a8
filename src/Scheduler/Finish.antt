-- ===== src/Scheduler/Finish.antt =====
-- The end of run, where the scheduler stops.
use fatdog.Base.{
  ℕ, zero, suc, ◌+◌, ◌≤◌, ◌≡◌, refl, sym, ap, ◌∙◌, subst, List, [], ◌∷◌, ◌++◌, Option, none, some,
  Bool, true, false, not, ◌&&◌, arith, inl, inr, ◌⊎◌, Bool-cases, All, length, length-append,
}
use fatdog.Fiber.{
  Fiber, new_fiber, is_init, is_over, is_term, Stop, yields_ready, yields_hold, finishes, throws,
  swaps_out,
}
use fatdog.Scheduler.{
  FiberAndThread, Scheduler, Locals, Behaviour, is_some, is_task, is_for_other, is_executing, ◌>>=◌,
  stopping, pick, next_round, run,
}
use fatdog.Scheduler.Run.{round_found}
use fatdog.Scheduler.Swap.{tasks, requeued}
use fatdog.Scheduler.Round.{cb_id, ran_by, cb_effect, effect}
use fatdog.Scheduler.Between.{IsValid}

-- A thread's own tasks, and a bound on the work that the code of the fibers makes.
abbrev pub IsOwn : ℕ → FiberAndThread → Type 0
IsOwn self e = is_for_other self e.thread ≡ false

-- Whatever a fiber does takes from the work that is left as many tasks as it queues.
pub record IsBounded {W : Type 0} (behave : Behaviour W) (self : ℕ) (work : W → ℕ) : Type 0 where
  pub less :
      (a : ℕ) (f : Fiber) (w : W)
      → length (tasks (behave a f w).scheduled ++ requeued a (behave a f w).stop)
          + work (behave a f w).world
        ≤ work w
  pub own : (a : ℕ) (f : Fiber) (w : W) → All (IsOwn self) (behave a f w).scheduled

list_cases :
    (es : List FiberAndThread)
    → (es ≡ []) ⊎ ((x : FiberAndThread) × (xs : List FiberAndThread) × (es ≡ x ∷ xs))
list_cases [] = inl refl
list_cases (e ∷ es) = inr (e, es, refl)

All-append :
    (self : ℕ) (xs ys : List FiberAndThread)
    → All (IsOwn self) xs
    → All (IsOwn self) ys
    → All (IsOwn self) (xs ++ ys)
All-append self [] ys h k = k
All-append self (x ∷ xs) ys (h, hs) k = (h, All-append self xs ys hs k)

tasks-IsOwn :
    (self : ℕ) (es : List FiberAndThread) → All (IsOwn self) es → All (IsOwn self) (tasks es)
tasks-IsOwn self [] h = tt
tasks-IsOwn self (e ∷ es) (h, hs) = elim (Bool-cases (is_task e)) [
  | inl t ↦ rw t (h, tasks-IsOwn self es hs)
  | inr o ↦ rw o (tasks-IsOwn self es hs)
]

requeued-IsOwn : (self a : ℕ) (stop : Stop) → All (IsOwn self) (requeued a stop)
requeued-IsOwn self a yields_ready = (refl, tt)
requeued-IsOwn self a yields_hold = tt
requeued-IsOwn self a finishes = tt
requeued-IsOwn self a throws = tt
requeued-IsOwn self a swaps_out = tt

module _ {W : Type 0} (behave : Behaviour W) (self : ℕ) (work : W → ℕ)
    (bound : IsBounded behave self work) where
  pick-empty : (s : Scheduler W) → s.fibers ≡ [] → (pick self s.heap s.fibers).1 ≡ none
  unfolding pick
  pick-empty s empty = ap (λ q. (pick self s.heap q).1) empty

  pick-first :
      (s : Scheduler W) (l : Locals)
      → IsValid s l
      → (e : FiberAndThread) (es : List FiberAndThread) → s.fibers ≡ e ∷ es
      → is_for_other self e.thread ≡ false
      → (pick self s.heap s.fibers).1 ≡ some (e, es)
  unfolding pick
  pick-first s l v e es q mine =
      ap (λ q. (pick self s.heap q).1) q ∙ rw (mine, idle_fiber e.fiber) refl
    where
      idle_fiber : (fib : Option ℕ) → is_executing s.heap fib ≡ false
      idle_fiber none = refl
      idle_fiber (some a) = v.free a

  -- What is queued is own, and paid for by the work.
  abbrev IsPaid : W → List FiberAndThread × W → Type 0
  IsPaid w e = (length e.0 + work e.1 ≤ work w) × All (IsOwn self) e.0

  ran_by-IsPaid : (a : ℕ) (f : Fiber) (w : W) → IsPaid w (ran_by behave a f w)
  ran_by-IsPaid a f w = elim (Bool-cases (is_init f.state && not (is_some f.cb))) [
    | inl empty ↦ rw empty (omega arith, tt)
    | inr full ↦ rw full (
      bound.less a f w,
      All-append self (tasks (behave a f w).scheduled) (requeued a (behave a f w).stop)
          (tasks-IsOwn self (behave a f w).scheduled (bound.own a f w))
          (requeued-IsOwn self a (behave a f w).stop),
    )
  ]

  cb_effect-IsPaid :
      (s : Scheduler W) (l : Locals) (cb : Option ℕ) → IsPaid s.world (cb_effect behave s l cb)
  cb_effect-IsPaid s l none = (omega arith, tt)
  cb_effect-IsPaid s l (some f) = ran_by-IsPaid (cb_id l.cb_fiber s.last_id) (new_fiber f) s.world

  effect-IsPaid :
      (s : Scheduler W) (l : Locals) (fib cb : Option ℕ) → IsPaid s.world (effect behave s l fib cb)
  effect-IsPaid s l none cb = cb_effect-IsPaid s l cb
  effect-IsPaid s l (some a) cb = elim (Bool-cases (is_over (s.heap a).state)) [
    | inl over ↦ rw over (cb_effect-IsPaid s l cb)
    | inr live ↦ rw live (ran_by-IsPaid a (s.heap a) s.world)
  ]

  -- run is over, with nothing left.
  pub record Finished (s : Scheduler W) (over : Bool) (s' : Scheduler W) (l' : Locals)
      : Type 0 where
    pub is_over : over ≡ true
    pub valid : IsValid s' l'
    pub queue : s'.fibers ≡ []
    pub active : s'.active_count ≡ s.active_count
    pub less_work : work s'.world ≤ work s.world

  abbrev RunAnswer : Scheduler W → Option (Bool × Scheduler W × Locals) → Type 0
  RunAnswer s o =
      (over : Bool) × (s' : Scheduler W) × (l' : Locals) × (o ≡ some (over, s', l'))
      × Finished s over s' l'

  -- The queue is empty, and idle_fiber over.
  last_round :
      (n : ℕ) (s : Scheduler W) (l : Locals)
      → IsValid s l
      → s.fibers ≡ []
      → is_term l.idle_state ≡ true
      → RunAnswer s (run behave self (suc n) s l)
  unfolding run
  last_round n s l v empty t =
      let (over, s1, l1, ran, (o, idled)) =
        round_found behave self s l v none (pick-empty s empty) in
      let is_last : over ≡ true = o ∙ t in
      (
        true,
        s1,
        l1,
        ap (λ o. o >>= next_round (run behave self n)) ran
            ∙ ap (λ b. next_round (run behave self n) (b, s1, l1)) is_last,
        record {
          is_over = refl;
          valid = idled.valid;
          queue = idled.queue ∙ empty;
          active = idled.active;
          less_work = omega (arith, ap work idled.world);
        },
      )

  -- The queue is empty.
  last_rounds :
      (n : ℕ) (s : Scheduler W) (l : Locals)
      → IsValid s l
      → s.is_stopping ≡ true
      → s.active_count ≡ 0
      → s.fibers ≡ []
      → RunAnswer s (run behave self (suc (suc n)) s l)
  unfolding run stopping
  last_rounds n s l v stops idle empty = elim (Bool-cases (is_term l.idle_state)) [
    | inl t ↦ last_round (suc n) s l v empty t
    | inr live ↦
        let (over, s1, l1, ran, (o, idled)) =
          round_found behave self s l v none (pick-empty s empty) in
        let goes_on : over ≡ false = o ∙ live in
        let over_now : is_term l1.idle_state ≡ true =
          ap is_term idled.idle_state ∙ rw (live, stops, empty, idle) refl in
        let (b, s2, l2, ran2, fin) =
          last_round n s1 l1 idled.valid (idled.queue ∙ empty) over_now in
        (
          b,
          s2,
          l2,
          ap (λ o. o >>= next_round (run behave self (suc n))) ran
              ∙ ap (λ b. next_round (run behave self (suc n)) (b, s1, l1)) goes_on
              ∙ ran2,
          record {
            is_over = fin.is_over;
            valid = fin.valid;
            queue = fin.queue;
            active = fin.active ∙ idled.active;
            less_work = omega (arith, fin.less_work, ap work idled.world);
          },
        )
  ]

  -- Where the scheduler is to stop and no thread counts as active, every task is for the thread
  -- and the code of the fibers queues only such tasks, and takes as many from a bound on the work
  -- that is left, a fiber that yields to READY counting as one: then run is over within two
  -- rounds more than there are tasks in the queue and work left, with no assertion failed and the
  -- queue empty. The state before is one as between two rounds, and so is that behind.
  pub run-Finished :
      (n : ℕ) (s : Scheduler W) (l : Locals)
      → IsValid s l
      → s.is_stopping ≡ true
      → s.active_count ≡ 0
      → All (IsOwn self) s.fibers
      → length s.fibers + work s.world ≤ n
      → (over : Bool) × (s' : Scheduler W) × (l' : Locals) × (run behave self (suc (suc n)) s l
          ≡ some (over, s', l'))
        × Finished s over s' l'
  unfolding run
  run-Finished zero s l v stops idle own enough = elim (list_cases s.fibers) [
    | inl empty ↦ last_rounds zero s l v stops idle empty
    | inr (e, es, q) ↦ absurd (omega (arith, enough, ap length q))
  ]
  run-Finished (suc n) s l v stops idle own enough = elim (list_cases s.fibers) [
    | inl empty ↦ last_rounds (suc n) s l v stops idle empty
    | inr (e, es, q) ↦
        let (mine, rest) = subst (All (IsOwn self)) q own in
        let (over, s1, l1, ran, (goes_on, r)) =
          round_found behave self s l v (some (e, es)) (pick-first s l v e es q mine) in
        let (small, added) = effect-IsPaid s l e.fiber e.cb in
        let (b, s2, l2, ran2, fin) =
          run-Finished n s1 l1 r.valid (r.flag ∙ stops) (r.active ∙ idle)
            (subst (All (IsOwn self)) (sym r.queue)
              (All-append self es (effect behave s l e.fiber e.cb).0 rest added))
            (omega (
              arith,
              enough,
              small,
              ap length q,
              ap length r.queue,
              ap work r.world,
              length-append es (effect behave s l e.fiber e.cb).0,
            )) in
        (
          b,
          s2,
          l2,
          ap (λ o. o >>= next_round (run behave self (suc (suc n)))) ran
              ∙ ap (λ b. next_round (run behave self (suc (suc n))) (b, s1, l1)) goes_on
              ∙ ran2,
          record {
            is_over = fin.is_over;
            valid = fin.valid;
            queue = fin.queue;
            active = fin.active ∙ r.active;
            less_work = omega (arith, fin.less_work, small, ap work r.world);
          },
        )
  ]
