-- ===== src/Timer/Runs.antt =====
-- Runs of a TimerManager, and its theorems at concrete inputs.
use fatdog.Base.{ℕ, ◌≡◌, ◌≤◌, refl, subst, [], ◌∷◌, some, Bool, true, false}
use fatdog.Timer.{
  TimerManager, put, call, on_timer, calls, init, add_timer, cancel, reset, get_next_timer,
  list_expired_cb,
}
use fatdog.Timer.Order.{contains}
use fatdog.Timer.Update.{IsValid}
use fatdog.Timer.Change.{
  Cancelled, cancel-Cancelled, Rescheduled, reset-Rescheduled, Added, add_timer-Added,
}
use fatdog.Timer.Expiry.{get_next_timer_lem}
use fatdog.Timer.Renew.{Expired}
use fatdog.Timer.Expired.{list_expired_cb-Expired}
use fatdog.Base.Words.{add64}

init-IsValid : IsValid init
init-IsValid = record { sorted = tt; waiting = λ a gone. refl }

-- At time 100, a timer of 50 ms, and one that recurs every 20 ms.
abbrev one : TimerManager
one = record {
  heap = put 1 (record { recurring = false; ms = 50; next = 150; cb = some (call 7) }) init.heap;
  timers = 1 ∷ [];
  tickled = true;
  fronts = 1;
}

abbrev two : TimerManager
two = record one {
  heap = put 2 (record { recurring = true; ms = 20; next = 120; cb = some (call 8) }) one.heap;
  timers = 2 ∷ 1 ∷ [];
}

one_run : add_timer 100 1 50 (some (call 7)) false init ≡ one
unfolding add_timer add64
one_run = refl

-- The earlier timer is at the front, and the waiter is told once.
two_run : add_timer 100 2 20 (some (call 8)) true one ≡ two
unfolding add_timer add64
two_run = refl

add_timer-Added_example :
    Added 1
      (record { recurring = false; ms = 50; next = add64 100 50; cb = some (call 7) })
      init
      (add_timer 100 1 50 (some (call 7)) false init)
add_timer-Added_example = add_timer-Added init 100 1 50 (some (call 7)) false init-IsValid refl

one-IsValid : IsValid one
one-IsValid =
    subst IsValid one_run
      (add_timer-Added init 100 1 50 (some (call 7)) false init-IsValid refl).valid

two-IsValid : IsValid two
two-IsValid =
    subst IsValid two_run (add_timer-Added one 100 2 20 (some (call 8)) true one-IsValid refl).valid

cancel-Cancelled_example :
    (b : Bool) × (m : TimerManager) × (cancel 1 two ≡ some (b, m)) × Cancelled 1 two b m
cancel-Cancelled_example = cancel-Cancelled two 1 two-IsValid

reset-Rescheduled_example :
    (m : TimerManager) × (reset 110 30 true 1 two ≡ (true, m))
    × Rescheduled 1 30 (add64 110 30) two m
reset-Rescheduled_example = reset-Rescheduled two 1 110 30 true (call 7) two-IsValid refl refl

get_next_timer_lem_example :
    ((get_next_timer 105 two).0 ≡ 15)
    × ((b : ℕ) → contains b two.timers ≡ true → 120 ≤ (two.heap b).next)
get_next_timer_lem_example = get_next_timer_lem two 105 2 (1 ∷ []) two-IsValid refl

list_expired_cb-Expired_example :
    ((list_expired_cb 130 3 two).0 ≡ some (call 8) ∷ [])
    × Expired 130 (2 ∷ []) two (list_expired_cb 130 3 two).1
list_expired_cb-Expired_example = list_expired_cb-Expired two 130 two-IsValid 3 refl

-- Behind it, the timer that recurs waits for time 150, behind the other of that time.
renewed_timers : (list_expired_cb 130 3 two).1.timers ≡ 1 ∷ 2 ∷ []
unfolding list_expired_cb add64
renewed_timers = refl

dead_object : calls (λ weak. false) (on_timer 5 9) ≡ []
unfolding calls
dead_object = refl
