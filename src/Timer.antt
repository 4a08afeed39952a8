-- ===== src/Timer.antt =====
-- fatdog/timer.cpp and timer.h: timers, and the set of those that wait, ordered by their time.
-- A Timer::ptr is an address, and the heap is a function from addresses; std::set is the list of
-- its elements in the order of the comparator. `now` is what GetCurrentMS() returns in a call.
pub mod Order
pub mod Update
pub mod Change
pub mod Expiry
pub mod Renew
pub mod Expired
mod Runs
use fatdog.Base.{
  ℕ, suc, ◌-◌, ◌^◌, List, [], ◌∷◌, ◌++◌, Option, none, some, Bool, true, false, not, ltb, leb, ◌==◌,
  if◌then◌else◌, take_while, drop_while,
}
use fatdog.Base.Words.{add64, sub64}
use mathlib.Core.Option

-- A function of the user, or OnTimer bound to a weak pointer and a function of the user.
pub data Callback : Type 0 where
  call : ℕ → Callback
  on_timer : ℕ → ℕ → Callback

-- The functions of the user that a callback calls, while some of the objects are alive.
unfoldable pub calls : (ℕ → Bool) → Callback → List ℕ
calls alive (call f) = f ∷ []
calls alive (on_timer weak f) = if alive weak then f ∷ [] else []

-- `cb` is `none` for an empty std::function.
pub record Timer : Type 0 where
  pub recurring : Bool
  pub ms : ℕ
  pub next : ℕ
  pub cb : Option Callback

-- `fronts` counts the calls of onTimerInsertedAtFront.
pub record TimerManager : Type 0 where
  pub heap : ℕ → Timer
  pub timers : List ℕ
  pub tickled : Bool
  pub fronts : ℕ

-- A manager with no timers; what stands where no timer was made is never looked at.
abbrev pub init : TimerManager
init = record {
  heap = λ a. record { recurring = false; ms = 0; next = 0; cb = none };
  timers = [];
  tickled = false;
  fronts = 0;
}

abbrev pub put : ℕ → Timer → (ℕ → Timer) → ℕ → Timer
put a t heap x = if x == a then t else heap x

abbrev pub less : (ℕ → Timer) → ℕ → ℕ → Bool
less heap l r =
    if ltb (heap l).next (heap r).next
    then true
    else if ltb (heap r).next (heap l).next
    then false
    else ltb l r

-- Comparator: a null pointer is ahead of any timer.
abbrev pub comparator : (ℕ → Timer) → Option ℕ → Option ℕ → Bool
comparator heap none none = false
comparator heap none (some r) = true
comparator heap (some l) none = false
comparator heap (some l) (some r) = less heap l r

-- m_timers.insert(a): an element that is equivalent stays.
abbrev pub insert : (ℕ → Timer) → ℕ → List ℕ → List ℕ
insert heap a [] = a ∷ []
insert heap a (b ∷ ts) =
    let rest = insert heap a ts in
    if comparator heap (some a) (some b)
    then a ∷ b ∷ ts
    else if comparator heap (some b) (some a)
    then b ∷ rest
    else b ∷ ts

-- m_timers.find(a) and m_timers.erase(it); `none` where find returns end().
abbrev pub remove : (ℕ → Timer) → ℕ → List ℕ → Option (List ℕ)
remove heap a [] = none
remove heap a (b ∷ ts) =
    let rest = remove heap a ts in
    if comparator heap (some b) (some a)
    then Option.map (◌∷◌ b) rest
    else if comparator heap (some a) (some b)
    then none
    else some ts

-- it == m_timers.begin(), for the place of `a`.
abbrev pub is_first : ℕ → List ℕ → Bool
is_first a [] = false
is_first a (b ∷ ts) = a == b

-- addTimer(Timer::ptr val)
unfoldable pub add_timer_ptr : ℕ → TimerManager → TimerManager
add_timer_ptr a m =
    let ts = insert m.heap a m.timers in
    let at_front = if is_first a ts then not m.tickled else false in
    record m {
      timers = ts;
      tickled = if at_front then true else m.tickled;
      fronts = if at_front then suc m.fronts else m.fronts;
    }

-- addTimer(uint64_t ms, cb, recurring); the new timer stands at `at`.
unfoldable pub add_timer : ℕ → ℕ → ℕ → Option Callback → Bool → TimerManager → TimerManager
unfolding add_timer_ptr
add_timer now at ms cb recurring m = add_timer_ptr at (record m {
  heap = put at (record { recurring = recurring; ms = ms; next = add64 now ms; cb = cb }) m.heap;
})

-- addConditionTimer
unfoldable pub add_condition_timer : ℕ → ℕ → ℕ → ℕ → ℕ → Bool → TimerManager → TimerManager
unfolding add_timer
add_condition_timer now at ms f weak recurring =
    add_timer now at ms (some (on_timer weak f)) recurring

-- cancel() of a timer with its function, from what find has found on. Where the timer is not in the
-- set, erase(end()) is undefined, and the result is `none`.
abbrev pub cancelled : ℕ → TimerManager → Option (List ℕ) → Option (Bool × TimerManager)
cancelled a m none = none
cancelled a m (some ts) =
    some (true, record m { heap = put a (record (m.heap a) { cb = none }) m.heap; timers = ts })

abbrev pub cancel_of : ℕ → TimerManager → Option Callback → Option (Bool × TimerManager)
cancel_of a m none = some (false, m)
cancel_of a m (some f) = cancelled a m (remove m.heap a m.timers)

-- cancel()
unfoldable pub cancel : ℕ → TimerManager → Option (Bool × TimerManager)
cancel a m = cancel_of a m (m.heap a).cb

-- refresh() of a timer with its function, from what find has found on.
abbrev pub refreshed : ℕ → ℕ → TimerManager → Option (List ℕ) → Bool × TimerManager
refreshed now a m none = (false, m)
refreshed now a m (some ts) =
    let heap = put a (record (m.heap a) { next = add64 now (m.heap a).ms }) m.heap in
    (true, record m { heap = heap; timers = insert heap a ts })

abbrev pub refresh_of : ℕ → ℕ → TimerManager → Option Callback → Bool × TimerManager
refresh_of now a m none = (false, m)
refresh_of now a m (some f) = refreshed now a m (remove m.heap a m.timers)

-- refresh()
unfoldable pub refresh : ℕ → ℕ → TimerManager → Bool × TimerManager
refresh now a m = refresh_of now a m (m.heap a).cb

-- reset(ms, from_now) of a timer with its function, from what find has found on.
abbrev pub restarted : ℕ → ℕ → Bool → ℕ → TimerManager → Option (List ℕ) → Bool × TimerManager
unfolding add_timer_ptr
restarted now ms from_now a m none = (false, m)
restarted now ms from_now a m (some ts) =
    let start = if from_now then now else sub64 (m.heap a).next (m.heap a).ms in
    let heap = put a (record (m.heap a) { ms = ms; next = add64 start ms }) m.heap in
    (true, add_timer_ptr a (record m { heap = heap; timers = ts }))

abbrev pub reset_of : ℕ → ℕ → Bool → ℕ → TimerManager → Option Callback → Bool × TimerManager
unfolding add_timer_ptr
reset_of now ms from_now a m none = (false, m)
reset_of now ms from_now a m (some f) = restarted now ms from_now a m (remove m.heap a m.timers)

-- reset(ms, from_now)
unfoldable pub reset : ℕ → ℕ → Bool → ℕ → TimerManager → Bool × TimerManager
unfolding add_timer_ptr
reset now ms from_now a m =
    if (if ms == (m.heap a).ms then not from_now else false)
    then (true, m)
    else reset_of now ms from_now a m (m.heap a).cb

-- getNextTimer() on the timers that wait; ~0ull where there are none.
abbrev pub next_of : ℕ → TimerManager → List ℕ → ℕ
next_of now m [] = 2 ^ 64 - 1
next_of now m (a ∷ ts) = if leb (m.heap a).next now then 0 else (m.heap a).next - now

unfoldable pub get_next_timer : ℕ → TimerManager → ℕ × TimerManager
get_next_timer now m = (next_of now m m.timers, record m { tickled = false })

-- What listExpiredCb makes of a timer that has expired, and of the set.
abbrev pub renew : ℕ → Timer → Timer
renew now t = if t.recurring then record t { next = add64 now t.ms } else record t { cb = none }

abbrev pub renewed : ℕ → ℕ → TimerManager → TimerManager
renewed now a m =
    let heap = put a (renew now (m.heap a)) m.heap in
    record m {
      heap = heap;
      timers = if (m.heap a).recurring then insert heap a m.timers else m.timers;
    }

-- The loop of listExpiredCb over the timers that have expired.
abbrev pub expire : ℕ → List ℕ → TimerManager → List (Option Callback) × TimerManager
expire now [] m = ([], m)
expire now (a ∷ expired) m =
    let rest = expire now expired (renewed now a m) in ((m.heap a).cb ∷ rest.0, rest.1)

-- The elements ahead of lower_bound(now_timer), where now_timer is a timer of time `now` at `at`,
-- and behind those the ones of time `now`.
abbrev pub split_expired : (ℕ → Timer) → ℕ → ℕ → List ℕ → List ℕ × List ℕ
split_expired heap now at ts =
    let heap' = put at (record { recurring = false; ms = 0; next = now; cb = none }) heap in
    let ahead = take_while (λ a. comparator heap' (some a) (some at)) ts in
    let rest = drop_while (λ a. comparator heap' (some a) (some at)) ts in
    (
      ahead ++ take_while (λ a. (heap a).next == now) rest,
      drop_while (λ a. (heap a).next == now) rest,
    )

-- listExpiredCb(cbs) on the timers that wait; now_timer is made at `at`.
abbrev pub expire_of : ℕ → ℕ → TimerManager → List ℕ → List (Option Callback) × TimerManager
expire_of now at m [] = ([], m)
expire_of now at m (a ∷ ts) =
    let (expired, rest) = split_expired m.heap now at (a ∷ ts) in
    expire now expired (record m { timers = rest })

unfoldable pub list_expired_cb : ℕ → ℕ → TimerManager → List (Option Callback) × TimerManager
list_expired_cb now at m = expire_of now at m m.timers

unfoldable pub has_timer : TimerManager → Bool
has_timer m = elim m.timers [ [] ↦ false | _ ∷ _ ↦ true ]
