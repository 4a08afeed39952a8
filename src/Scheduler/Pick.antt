-- ===== src/Scheduler/Pick.antt =====
-- The search of run in the queue.
use fatdog.Base.{
  ℕ, ◌≡◌, refl, sym, ap, ◌∙◌, List, [], ◌∷◌, ◌++◌, Option, none, some, Bool, true, false, ◌||◌,
  if◌then◌else◌, inl, inr, Bool-cases, All, subst,
}
use fatdog.Fiber.{Fiber}
use fatdog.Scheduler.{FiberAndThread, is_for_other, is_executing, kept, pick}

module _ (self : ℕ) (heap : ℕ → Fiber) where
  -- Whether the thread passes a task over: it is for another thread, or its fiber runs.
  abbrev pub is_passed : FiberAndThread → Bool
  is_passed e = is_for_other self e.thread || is_executing heap e.fiber

  abbrev pub IsPassed : FiberAndThread → Type 0
  IsPassed e = is_passed e ≡ true

  abbrev pub has_for_other : List FiberAndThread → Bool
  has_for_other [] = false
  has_for_other (e ∷ es) = is_for_other self e.thread || has_for_other es

  -- The task found is the first that is not passed over, and goes from the queue.
  pub record Found (es : List FiberAndThread) (tickle : Bool) (e : FiberAndThread)
      (rest : List FiberAndThread) : Type 0 where
    pub before : List FiberAndThread
    pub after : List FiberAndThread
    pub queue : es ≡ before ++ e ∷ after
    pub others : rest ≡ before ++ after
    pub passed : All IsPassed before
    pub runnable : is_passed e ≡ false
    pub tickles : tickle ≡ has_for_other before

  abbrev pub Picked :
      List FiberAndThread → Bool × Option (FiberAndThread × List FiberAndThread) → Type 0
  Picked es (tickle, none) = All IsPassed es × (tickle ≡ has_for_other es)
  Picked es (tickle, some (e, rest)) = Found es tickle e rest

  kept-Picked :
      (e : FiberAndThread) (es : List FiberAndThread) (tickle t : Bool)
      (found : Option (FiberAndThread × List FiberAndThread))
      → is_passed e ≡ true
      → Picked es (tickle, found)
      → t ≡ (is_for_other self e.thread || tickle)
      → Picked (e ∷ es) (t, kept e found)
  kept-Picked e es tickle t none h (all, k) o =
      ((h, all), o ∙ ap (λ b. is_for_other self e.thread || b) k)
  kept-Picked e es tickle t (some (f, rest)) h p o = record {
    before = e ∷ p.before;
    after = p.after;
    queue = ap (λ es. e ∷ es) p.queue;
    others = ap (λ es. e ∷ es) p.others;
    passed = (h, p.passed);
    runnable = p.runnable;
    tickles = o ∙ ap (λ b. is_for_other self e.thread || b) p.tickles;
  }

  -- The search of run in the queue finds the first task that is for any thread or for this one
  -- and whose fiber does not run, and takes just it from the queue, the order of the others kept;
  -- it finds none where every task is passed over. It is to tickle exactly where a task that it
  -- passes over is for another thread.
  pub pick-Picked : (es : List FiberAndThread) → Picked es (pick self heap es)
  unfolding pick
  pick-Picked [] = (tt, refl)
  pick-Picked (e ∷ es) =
      let rest = pick-Picked es in
      let (tickle, found) = pick self heap es in
      let on : Bool → Bool → Bool × Option (FiberAndThread × List FiberAndThread) = λ o x.
        if o
        then (true, kept e found)
        else if x
        then (tickle, kept e found)
        else (false, some (e, es)) in
      elim (Bool-cases (is_for_other self e.thread)) [
        | inl o ↦
            subst (λ b. Picked (e ∷ es) (on b (is_executing heap e.fiber))) (sym o)
              (kept-Picked e es tickle true found (rw o refl) rest (rw o refl))
        | inr own ↦ elim (Bool-cases (is_executing heap e.fiber)) [
          | inl x ↦
              subst (λ (r : Bool × Bool). Picked (e ∷ es) (on r.0 r.1))
                (sym (ap (λ b. (b, is_executing heap e.fiber)) own ∙ ap (λ b. (false, b)) x))
                (kept-Picked e es tickle tickle found (rw (own, x) refl) rest (rw own refl))
          | inr free ↦
              subst (λ (r : Bool × Bool). Picked (e ∷ es) (on r.0 r.1))
                (sym (ap (λ b. (b, is_executing heap e.fiber)) own ∙ ap (λ b. (false, b)) free))
                record {
                  before = [];
                  after = es;
                  queue = refl;
                  others = refl;
                  passed = tt;
                  runnable = rw (own, free) refl;
                  tickles = refl;
                }
        ]
      ]
