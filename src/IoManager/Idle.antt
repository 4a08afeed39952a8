-- ===== src/IoManager/Idle.antt =====
-- IOManager::stopping and the timeout of idle, with the timers and the scheduler of the manager.
use fatdog.Base.{
  ℕ, ◌-◌, ◌^◌, ◌%◌, ◌<◌, ◌≡◌, refl, ap, ◌∙◌, List, [], ◌∷◌, Option, Bool, true, false, ◌&&◌, length,
  ltb, ◌==◌, if◌then◌else◌, min, arith, inl, inr, le-or-lt, le→not_ltb, lt→ltb, ◌↔◌, ==_iff,
}
use fatdog.Base.Signed.{ℤ, pos, negsuc, to_signed}
use fatdog.Timer.{TimerManager, next_of, get_next_timer}
use fatdog.Scheduler.{FiberAndThread, Scheduler, is_empty, stopping}
use mathlib.Core.Bool.{false≢true}
use fatdog.IoManager.Flags.{Events, no_events, size}
use fatdog.IoManager.{IoManager}
use fatdog.IoManager.Table.{new_context, context_of, context_of-short, count-set, count-none}
use fatdog.IoManager.Valid.{IsValid}

-- (int)timeout > MAX_TIMEOUT
abbrev pub is_above : ℤ → Bool
is_above (pos n) = ltb 5000 n
is_above (negsuc n) = false

-- (int)timeout
abbrev pub to_int : ℕ → ℤ
to_int timeout = to_signed (2 ^ 31) (timeout % 2 ^ 32)

-- The assignment to next_timeout in idle.
unfoldable pub clamp : ℕ → ℕ
clamp timeout =
    if timeout == 2 ^ 64 - 1 then 5000 else if is_above (to_int timeout) then 5000 else timeout

-- The timeout of epoll_wait; a negative one is none.
unfoldable pub wait_timeout : ℕ → ℤ
wait_timeout timeout = to_int (clamp timeout)

-- stopping(timeout)
unfoldable pub io_stopping :
    {K W : Type 0} → ℕ → TimerManager → IoManager K → Scheduler W → (Bool × ℕ) × TimerManager
io_stopping now timers m s =
    let (timeout, timers') = get_next_timer now timers in
    (((timeout == 2 ^ 64 - 1) && (m.pending == 0) && stopping s, timeout), timers')

-- For a time to the next timer below 2^64 - 1, idle waits for its lower 32 bits and at most 5000
-- ms, where these are below 2^31; where they are not, the timeout of epoll_wait is negative.
pub wait_timeout_lem :
    (timeout : ℕ)
    → timeout < 2 ^ 64 - 1
    → wait_timeout timeout ≡ (
        if ltb (timeout % 2 ^ 32) (2 ^ 31)
        then pos (min (timeout % 2 ^ 32) 5000)
        else negsuc (2 ^ 32 - 1 - timeout % 2 ^ 32))
unfolding wait_timeout clamp to_signed
wait_timeout_lem timeout h =
    let not_max : (timeout == 2 ^ 64 - 1) ≡ false = ground (arith, h) in
    let r = timeout % 2 ^ 32 in
    elim (le-or-lt (2 ^ 31) r) [
      | inl high ↦
          let int : to_int timeout ≡ negsuc (2 ^ 32 - 1 - r) =
            rw (le→not_ltb r (2 ^ 31) high) refl in
          rw (not_max, int, le→not_ltb r (2 ^ 31) high) refl
      | inr low ↦
          let int : to_int timeout ≡ pos r = rw (lt→ltb r (2 ^ 31) low) refl in
          elim (le-or-lt r 5000) [
            | inl small ↦
                rw (not_max, int, lt→ltb r (2 ^ 31) low, le→not_ltb 5000 r small)
                  (int ∙ ap pos {x = r} {y = min r 5000} (omega (arith, small)))
            | inr large ↦
                rw (not_max, int, lt→ltb r (2 ^ 31) low, lt→ltb 5000 r large)
                  (ap pos {x = 5000} {y = min r 5000} (omega (arith, large)))
          ]
    ]

-- Nothing keeps the manager: no timer, no event and no task waits, and none runs.
pub record IsIdle {K W : Type 0} (timers : TimerManager) (m : IoManager K) (s : Scheduler W)
    : Type 0 where
  pub no_timers : timers.timers ≡ []
  pub no_waiting : (fd : ℕ) → (context_of m.contexts fd).events ≡ no_events
  pub no_tasks : s.fibers ≡ []
  pub no_active : s.active_count ≡ 0
  pub asked : s.is_stopping ≡ true

size_zero : (es : Events) → size es ≡ 0 → es ≡ no_events
size_zero es h = ground (arith, h)

and_true : (a b : Bool) → ((a && b) ≡ true) ↔ ((a ≡ true) × (b ≡ true))
and_true a b = ground arith

is_empty_iff : (es : List FiberAndThread) → (is_empty es ≡ true) ↔ (es ≡ [])
is_empty_iff [] = (λ h. refl, λ h. refl)
is_empty_iff (e ∷ es) = (λ h. absurd (false≢true h), λ h. absurd (false≢true (ap is_empty h)))

module _ {K W : Type 0} (interest : K → ℕ → Option Events) (now : ℕ) (timers : TimerManager)
    (m : IoManager K) (s : Scheduler W) (v : IsValid interest m)
    (soon : (a : ℕ) → (timers.heap a).next < 2 ^ 64 - 1) where
  next_of-none : (ts : List ℕ) → (next_of now timers ts == 2 ^ 64 - 1) ≡ true → ts ≡ []
  next_of-none [] h = refl
  next_of-none (a ∷ ts) h = absurd (ground (arith, h, soon a))

  no_event : (fd : ℕ) → m.pending ≡ 0 → (context_of m.contexts fd).events ≡ no_events
  no_event fd none_left = elim (le-or-lt (length m.contexts) fd) [
    | inl short ↦ context_of-short m.contexts fd short
    | inr within ↦
        size_zero (context_of m.contexts fd).events
          (omega (arith, none_left, v.counted, count-set m.contexts fd (new_context 0) within))
  ]

  -- On a valid manager all of whose timers have a time below 2^64 - 1, stopping says true exactly
  -- where no timer waits, no event is waited for on any descriptor, no task is in the queue, no
  -- thread counts as active, and the scheduler was asked to stop.
  pub io_stopping-IsIdle : ((io_stopping now timers m s).0.0 ≡ true) ↔ IsIdle timers m s
  unfolding io_stopping stopping get_next_timer
  io_stopping-IsIdle = (only_idle, stops)
    where
      only_idle : (io_stopping now timers m s).0.0 ≡ true → IsIdle timers m s
      only_idle h =
          let (both, last) =
            (and_true ((next_of now timers timers.timers == 2 ^ 64 - 1) && (m.pending == 0))
                (stopping s)).0
              h in
          let (ready, no_pending) =
            (and_true (next_of now timers timers.timers == 2 ^ 64 - 1) (m.pending == 0)).0 both in
          let (asked, rest) =
            (and_true s.is_stopping (is_empty s.fibers)).0
              ((and_true (s.is_stopping && is_empty s.fibers) (s.active_count == 0)).0 last).0 in
          record {
            no_timers = next_of-none timers.timers ready;
            no_waiting = λ fd. no_event fd ((==_iff m.pending 0).0 no_pending);
            no_tasks = (is_empty_iff s.fibers).0 rest;
            no_active =
                (==_iff s.active_count 0).0
                  ((and_true (s.is_stopping && is_empty s.fibers) (s.active_count == 0)).0 last).1;
            asked = asked;
          }

      stops : IsIdle timers m s → (io_stopping now timers m s).0.0 ≡ true
      stops i =
          rw
            (
              i.no_timers,
              v.counted,
              count-none m.contexts i.no_waiting,
              i.asked,
              i.no_tasks,
              i.no_active,
            )
            refl
