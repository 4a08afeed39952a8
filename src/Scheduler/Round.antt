-- ===== src/Scheduler/Round.antt =====
-- A round of the loop of run: what a task does to the queue.
use fatdog.Base.{
  ℕ, suc, ◌≡◌, refl, sym, ap, ◌∙◌, subst, List, [], ◌++◌, append_assoc, append-nil, Option, none,
  some, true, false, ◌==◌, if◌then◌else◌, arith, inl, inr, Bool-cases, ==_iff,
}
use fatdog.Base.Words.{add64, sub64}
use fatdog.Fiber.{Fiber, new_fiber, is_exec, is_init, is_over, throws}
use fatdog.Scheduler.{
  FiberAndThread, Scheduler, Locals, Behaviour, set_fiber, ◌>>=◌, code, swap, less_active,
  fiber_done, cb_done, take_cb_fiber, run_cb, run_task,
}
use fatdog.Scheduler.Swap.{
  after, settled, settled-is_exec, cb_settled, cb_kept, requeued, tasks, set_fiber_same, Swapped,
  swap-Swapped, fiber_done-Done, cb_done-Done,
}
use fatdog.Scheduler.Between.{
  IsBlank, IsReusable, IsValid, one_more_less, reset_lem, is_init-can_reset, cb_settled-is_exec,
  cb_kept-IsReusable,
}

-- The id of the fiber that runs a function.
abbrev pub cb_id : Option ℕ → ℕ → ℕ
cb_id none last = suc last
cb_id (some a) last = a

module _ {W : Type 0} (behave : Behaviour W) where
  -- What a fiber adds to the queue, and the world that it leaves.
  abbrev pub ran_by : ℕ → Fiber → W → List FiberAndThread × W
  ran_by a f w = let r = code behave a f w in (tasks r.scheduled ++ requeued a r.stop, r.world)

  abbrev pub cb_effect : Scheduler W → Locals → Option ℕ → List FiberAndThread × W
  cb_effect s l none = ([], s.world)
  cb_effect s l (some f) = ran_by (cb_id l.cb_fiber s.last_id) (new_fiber f) s.world

  -- The same of a task: a fiber that is not over runs, or else the function in cb_fiber.
  abbrev pub effect : Scheduler W → Locals → Option ℕ → Option ℕ → List FiberAndThread × W
  effect s l none cb = cb_effect s l cb
  effect s l (some a) cb =
      if is_over (s.heap a).state then cb_effect s l cb else ran_by a (s.heap a) s.world

  -- The task is done: it has added to what is left of the queue, and changed the world.
  pub record Rounded (s : Scheduler W) (rest : List FiberAndThread) (e : List FiberAndThread × W)
      (s' : Scheduler W) (l' : Locals) : Type 0 where
    pub valid : IsValid s' l'
    pub queue : s'.fibers ≡ rest ++ e.0
    pub world : s'.world ≡ e.1
    pub active : s'.active_count ≡ s.active_count
    pub flag : s'.is_stopping ≡ s.is_stopping

  code_of_none :
      (a : ℕ) (f : Fiber) (w : W)
      → is_init f.state ≡ true
      → f.cb ≡ none
      → (code behave a f w).stop ≡ throws
  code_of_none a f w h k = rw (h, k) refl

  module _ (s : Scheduler W) (l : Locals) (v : IsValid s l) (rest : List FiberAndThread) where
    -- The scheduler of the round: the task is out of the queue, and counted as active.
    abbrev pub taken : Scheduler W
    taken = record s { fibers = rest; active_count = add64 s.active_count 1 }

    abbrev Answer : Option (Scheduler W × Locals) → List FiberAndThread × W → Type 0
    Answer o e = (s' : Scheduler W) × (l' : Locals) × (o ≡ some (s', l')) × Rounded s rest e s' l'

    -- The heap of a round: one fiber is another, and not in EXEC.
    free_again :
        (a : ℕ) (g : Fiber) (heap : ℕ → Fiber)
        → heap a ≡ g
        → is_exec g.state ≡ false
        → ((x : ℕ) → (x == a) ≡ false → heap x ≡ s.heap x)
        → (x : ℕ) → is_exec (heap x).state ≡ false
    free_again a g heap at h others x = elim (Bool-cases (x == a)) [
      | inl e ↦
          ap (λ y. is_exec (heap y).state) ((==_iff x a).0 e)
          ∙ ap (λ (f : Fiber). is_exec f.state) at
          ∙ h
      | inr o ↦ ap (λ (f : Fiber). is_exec f.state) (others x o) ∙ v.free x
    ]

    settled-IsReusable :
        (a : ℕ) (g : Fiber) (heap : ℕ → Fiber)
        → heap a ≡ g
        → (l.cb_fiber ≡ some a → IsBlank g)
        → ((x : ℕ) → (x == a) ≡ false → heap x ≡ s.heap x)
        → IsReusable heap l.cb_fiber
    settled-IsReusable a g heap at h others b e = elim (Bool-cases (b == a)) [
      | inl k ↦
          let same = (==_iff b a).0 k in
          subst IsBlank (sym (ap heap same ∙ at)) (h (e ∙ ap some same))
      | inr o ↦ subst IsBlank (sym (others b o)) (v.reusable b e)
    ]

    -- A fiber was left so by the round, and the others as they were.
    settled-Rounded :
        (a : ℕ) (g : Fiber) (s' : Scheduler W) (cb' : Option ℕ) (e : List FiberAndThread × W)
        → s'.heap a ≡ g
        → is_exec g.state ≡ false
        → ((x : ℕ) → (x == a) ≡ false → s'.heap x ≡ s.heap x)
        → IsReusable s'.heap cb'
        → s'.fibers ≡ rest ++ e.0
        → s'.world ≡ e.1
        → s'.active_count ≡ sub64 (add64 s.active_count 1) 1
        → s'.idle_count ≡ s.idle_count
        → s'.is_stopping ≡ s.is_stopping
        → Rounded s rest e s' (record l { cb_fiber = cb' })
    settled-Rounded a g s' cb' e at h others reusable queue world active idle flag =
        let same : s'.active_count ≡ s.active_count =
          active ∙ one_more_less s.active_count v.few_active in
        record {
          valid = record {
            free = free_again a g s'.heap at h others;
            idle_free = v.idle_free;
            reusable = reusable;
            few_active = omega (arith, same, v.few_active);
            few_idle = omega (arith, idle, v.few_idle);
          };
          queue = queue;
          world = world;
          active = same;
          flag = flag;
        }

    -- cb_fiber itself, queued by the code that ran in it, has no function and throws.
    settled-IsBlank :
        (a : ℕ)
        → is_over (s.heap a).state ≡ false
        → l.cb_fiber ≡ some a
        → IsBlank (settled (code behave a (s.heap a) s.world).stop (s.heap a))
    settled-IsBlank a live e =
        let (resettable, none_left) = v.reusable a e in
        let fresh = is_init-can_reset (s.heap a).state resettable live in
        subst (λ stop. IsBlank (settled stop (s.heap a)))
          (sym (code_of_none a (s.heap a) s.world fresh none_left)) (refl, none_left)

    fiber-Rounded :
        (a : ℕ)
        → is_over (s.heap a).state ≡ false
        → Answer
            (swap behave a taken >>= λ s. some (fiber_done a (less_active s), l))
            (ran_by a (s.heap a) s.world)
    fiber-Rounded a live =
        let f = s.heap a in
        let r = code behave a f s.world in
        let (s1, ran, sw) = swap-Swapped behave a taken (v.free a) in
        let h : s1.heap a ≡ after r.stop f =
          ap (λ (k : ℕ → Fiber). k a) sw.heap ∙ set_fiber_same a (after r.stop f) s.heap in
        let s2 = fiber_done a (less_active s1) in
        let d = fiber_done-Done a r.stop f (less_active s1) h in
        let others : (x : ℕ) → (x == a) ≡ false → s2.heap x ≡ s.heap x =
          λ x o. d.others x o ∙ ap (λ (k : ℕ → Fiber). k x) sw.heap ∙ rw o refl in
        (
          s2,
          l,
          ap (λ o. o >>= λ s. some (fiber_done a (less_active s), l)) ran,
          settled-Rounded a (settled r.stop f) s2 l.cb_fiber (ran_by a f s.world) d.at
              (settled-is_exec r.stop f) others
              (settled-IsReusable a (settled r.stop f) s2.heap d.at (settled-IsBlank a live) others)
              (d.queue
                ∙ ap (λ q. q ++ requeued a r.stop) sw.queue
                ∙ append_assoc rest (tasks r.scheduled) (requeued a r.stop))
              (d.world ∙ sw.world) (d.steady.active ∙ ap (λ k. sub64 k 1) sw.steady.active)
              (d.steady.idle ∙ sw.steady.idle) (d.steady.flag ∙ sw.steady.flag),
        )

    -- cb_fiber has the function.
    record Loaded (a : ℕ) (f : ℕ) (t : Scheduler W) : Type 0 where
      heap : t.heap ≡ set_fiber a (new_fiber f) s.heap
      queue : t.fibers ≡ rest
      world : t.world ≡ s.world
      active : t.active_count ≡ add64 s.active_count 1
      idle : t.idle_count ≡ s.idle_count
      flag : t.is_stopping ≡ s.is_stopping

    take_cb_fiber-Loaded :
        (f : ℕ) (cb_fiber : Option ℕ)
        → l.cb_fiber ≡ cb_fiber
        → (t : Scheduler W) × (take_cb_fiber f cb_fiber taken ≡ some (cb_id cb_fiber s.last_id, t))
          × Loaded (cb_id cb_fiber s.last_id) f t
    take_cb_fiber-Loaded f none e = (
      _,
      refl,
      record { heap = refl; queue = refl; world = refl; active = refl; idle = refl; flag = refl },
    )
    take_cb_fiber-Loaded f (some a) e = (
      record taken { heap = set_fiber a (new_fiber f) s.heap },
      ap (λ o. o >>= λ g. some (a, record taken { heap = set_fiber a g s.heap }))
          (reset_lem (some f) (s.heap a) (v.reusable a e).0),
      record { heap = refl; queue = refl; world = refl; active = refl; idle = refl; flag = refl },
    )

    cb-Rounded : (f : ℕ) → Answer (run_cb behave l taken (some f)) (cb_effect s l (some f))
    cb-Rounded f =
        let a = cb_id l.cb_fiber s.last_id in
        let g = new_fiber f in
        let (t, took, loaded) = take_cb_fiber-Loaded f l.cb_fiber refl in
        let here : t.heap a ≡ g =
          ap (λ (k : ℕ → Fiber). k a) loaded.heap ∙ set_fiber_same a g s.heap in
        let r = code behave a g s.world in
        let (s1, ran, sw0) = swap-Swapped behave a t (ap (λ (f : Fiber). is_exec f.state) here) in
        let same_run : code behave a (t.heap a) t.world ≡ r =
          ap (λ h. code behave a h t.world) here ∙ ap (λ w. code behave a g w) loaded.world in
        let sw = subst (λ r. Swapped a r t s1) same_run sw0 in
        let h : s1.heap a ≡ after r.stop g =
          ap (λ (k : ℕ → Fiber). k a) sw.heap
          ∙ set_fiber_same a (after r.stop (t.heap a)) t.heap
          ∙ ap (after r.stop) here in
        let (s2, done, d) = cb_done-Done a r.stop g l (less_active s1) h in
        let others : (x : ℕ) → (x == a) ≡ false → s2.heap x ≡ s.heap x = λ x o.
          d.others x o
          ∙ ap (λ (k : ℕ → Fiber). k x) sw.heap
          ∙ rw o refl
          ∙ ap (λ (k : ℕ → Fiber). k x) loaded.heap
          ∙ rw o refl in
        (
          s2,
          record l { cb_fiber = cb_kept a r.stop },
          ap
                (λ o. o >>= λ (r : ℕ × Scheduler W).
                  swap behave r.0 r.1 >>= λ s. cb_done r.0 l (less_active s))
                took
              ∙ ap (λ o. o >>= λ s. cb_done a l (less_active s)) ran
              ∙ done,
          settled-Rounded a (cb_settled r.stop g) s2 (cb_kept a r.stop) (ran_by a g s.world) d.at
              (cb_settled-is_exec r.stop g) others (cb_kept-IsReusable a r.stop g s2.heap d.at)
              (d.queue
                ∙ ap (λ q. q ++ requeued a r.stop)
                    (sw.queue ∙ ap (λ q. q ++ tasks r.scheduled) loaded.queue)
                ∙ append_assoc rest (tasks r.scheduled) (requeued a r.stop))
              (d.world ∙ sw.world)
              (d.steady.active ∙ ap (λ k. sub64 k 1) (sw.steady.active ∙ loaded.active))
              (d.steady.idle ∙ sw.steady.idle ∙ loaded.idle)
              (d.steady.flag ∙ sw.steady.flag ∙ loaded.flag),
        )

    nothing-Rounded : Answer (run_cb behave l taken none) ([], s.world)
    nothing-Rounded = (
      less_active taken,
      l,
      refl,
      record {
        valid = record {
          free = v.free;
          idle_free = v.idle_free;
          reusable = v.reusable;
          few_active = omega (arith, one_more_less s.active_count v.few_active, v.few_active);
          few_idle = v.few_idle;
        };
        queue = sym (append-nil rest);
        world = refl;
        active = one_more_less s.active_count v.few_active;
        flag = refl;
      },
    )

    function-Rounded : (cb : Option ℕ) → Answer (run_cb behave l taken cb) (cb_effect s l cb)
    function-Rounded none = nothing-Rounded
    function-Rounded (some f) = cb-Rounded f

    -- Any task.
    pub run_task-Rounded :
        (e : FiberAndThread) (fib : Option ℕ)
        → Answer (run_task behave l taken e fib) (effect s l fib e.cb)
    run_task-Rounded e none = function-Rounded e.cb
    run_task-Rounded e (some a) = elim (Bool-cases (is_over (s.heap a).state)) [
      | inl over ↦ rw over (function-Rounded e.cb)
      | inr live ↦ rw live (fiber-Rounded a live)
    ]
