-- ===== src/Timer/Change.antt =====
-- What addTimer, cancel, refresh and reset come to on a valid manager.
use fatdog.Base.{
  ℕ, suc, ◌≡◌, refl, sym, ap, ◌∙◌, subst, List, [], ◌∷◌, Option, none, some, Bool, true, false, not,
  All, ◌==◌, if◌then◌else◌, arith, Option-cases, inl, inr,
}
use fatdog.Base.Words.{add64, sub64}
use fatdog.Timer.{
  Timer, TimerManager, Callback, less, insert, put, is_first, add_timer_ptr, add_timer, cancelled,
  cancel_of, cancel, refreshed, refresh_of, refresh, restarted, reset_of, reset,
}
use fatdog.Timer.Order.{
  contains, IsSorted, eq-cases, less_trans, less-asymm, less-ne, ne-sym, Removed, remove-Removed,
  All-contains,
}
use fatdog.Timer.Update.{
  IsValid, Others, put-other, put-same, put-IsSorted, has_cb-contains, inserted-contains,
  inserted-IsValid, inserted-Others,
}
use mathlib.Core.Bool.{false≢true}

abbrev is_some {ℓ} : {A : Type ℓ} → Option A → Bool
is_some none = false
is_some (some a) = true

-- After cancel: the timer has no function, and if it had one it was in the set and no longer is.
pub record Cancelled (a : ℕ) (m : TimerManager) (b : Bool) (m' : TimerManager) : Type 0 where
  pub valid : IsValid m'
  pub others : Others a m m'
  pub answer : b ≡ is_some (m.heap a).cb
  pub silent : (m'.heap a).cb ≡ none
  pub gone : b ≡ true → contains a m'.timers ≡ false

-- The set behind erase.
module _ (m : TimerManager) (a : ℕ) (ts : List ℕ) (R : Removed m.heap a m.timers ts) where
  removed_out : contains a ts ≡ false
  removed_out = R.others a ∙ ground arith

  removed_members : (x : ℕ) → (x == a) ≡ false → contains x ts ≡ contains x m.timers
  removed_members x o = R.others x ∙ rw o refl

  cancelled-IsValid :
      IsValid m
      → IsValid (record m { heap = put a (record (m.heap a) { cb = none }) m.heap; timers = ts })
  cancelled-IsValid v = record {
    sorted = put-IsSorted m.heap a (record (m.heap a) { cb = none }) ts removed_out R.sorted;
    waiting = λ x gone. elim (eq-cases x a) [
      | inl e ↦ rw e (ap (λ t. t.cb) (put-same m.heap a (record (m.heap a) { cb = none })))
      | inr o ↦
          rw (put-other m.heap a (record (m.heap a) { cb = none }) x o)
            (v.waiting x (sym (removed_members x o) ∙ gone))
    ];
  }

-- On a valid manager cancel always returns, and says whether the timer had its function: the
-- manager is valid, the timer has no function, if it had one it is out of the set, and every other
-- timer is as it was.
pub cancel-Cancelled :
    (m : TimerManager) (a : ℕ)
    → IsValid m
    → (b : Bool) × (m' : TimerManager) × (cancel a m ≡ some (b, m')) × Cancelled a m b m'
unfolding cancel
cancel-Cancelled m a v = elim (Option-cases (m.heap a).cb) [
  | inl e ↦ (
    false,
    m,
    ap (cancel_of a m) e,
    record {
      valid = v;
      others = record { same_timer = λ x o. refl; same_member = λ x o. refl };
      answer = rw e refl;
      silent = e;
      gone = λ h. absurd (false≢true h);
    },
  )
  | inr (f, e) ↦
      let (ts, found, R) = remove-Removed m.heap a m.timers v.sorted (has_cb-contains m a f v e) in
      let t : Timer = record (m.heap a) { cb = none } in
      (
        true,
        record m { heap = put a t m.heap; timers = ts },
        ap (cancel_of a m) e ∙ ap (cancelled a m) found,
        record {
          valid = cancelled-IsValid m a ts R v;
          others = record {
            same_timer = put-other m.heap a t;
            same_member = removed_members m a ts R;
          };
          answer = rw e refl;
          silent = ap (λ t. t.cb) (put-same m.heap a t);
          gone = λ h. removed_out m a ts R;
        },
      )
]

-- After refresh and reset of a timer that has its function: it waits for the time `next`.
pub record Rescheduled (a ms next : ℕ) (m m' : TimerManager) : Type 0 where
  pub valid : IsValid m'
  pub others : Others a m m'
  pub timer : m'.heap a ≡ record (m.heap a) { ms = ms; next = next }
  pub waits : contains a m'.timers ≡ true

-- On a valid manager refresh of a timer with its function returns true: the timer waits for its
-- period from `now` on, the manager is valid, and every other timer is as it was.
pub refresh-Rescheduled :
    (m : TimerManager) (a now : ℕ) (f : Callback)
    → IsValid m
    → (m.heap a).cb ≡ some f
    → (m' : TimerManager) × (refresh now a m ≡ (true, m'))
      × Rescheduled a (m.heap a).ms (add64 now (m.heap a).ms) m m'
unfolding refresh
refresh-Rescheduled m a now f v e =
    let (ts, found, R) = remove-Removed m.heap a m.timers v.sorted (has_cb-contains m a f v e) in
    let t : Timer = record (m.heap a) { next = add64 now (m.heap a).ms } in
    let out = removed_out m a ts R in
    let members = removed_members m a ts R in
    (
      record m { heap = put a t m.heap; timers = insert (put a t m.heap) a ts },
      ap (refresh_of now a m) e ∙ ap (refreshed now a m) found,
      record {
        valid = inserted-IsValid m a ts t v out R.sorted members m.tickled m.fronts;
        others = inserted-Others m a ts t v out R.sorted members m.tickled m.fronts;
        timer = put-same m.heap a t;
        waits = inserted-contains m a ts t v out R.sorted members;
      },
    )

-- The start that reset counts from.
abbrev pub start : Bool → ℕ → Timer → ℕ
start from_now now t = if from_now then now else sub64 t.next t.ms

-- On a valid manager reset of a timer with its function returns true, where it has something to
-- change: the timer has the new period, and waits for that period from `now`, or from the start of
-- the old one, the manager is valid, and every other timer is as it was.
pub reset-Rescheduled :
    (m : TimerManager) (a now ms : ℕ) (from_now : Bool) (f : Callback)
    → IsValid m
    → (m.heap a).cb ≡ some f
    → (if ms == (m.heap a).ms then not from_now else false) ≡ false
    → (m' : TimerManager) × (reset now ms from_now a m ≡ (true, m'))
      × Rescheduled a ms (add64 (start from_now now (m.heap a)) ms) m m'
unfolding reset add_timer_ptr
reset-Rescheduled m a now ms from_now f v e changed =
    let (ts, found, R) = remove-Removed m.heap a m.timers v.sorted (has_cb-contains m a f v e) in
    let t : Timer = record (m.heap a) {
      ms = ms;
      next = add64 (start from_now now (m.heap a)) ms;
    } in
    let out = removed_out m a ts R in
    let members = removed_members m a ts R in
    let m' = add_timer_ptr a (record m { heap = put a t m.heap; timers = ts }) in
    (
      m',
      ap (λ c. if c then (true, m) else reset_of now ms from_now a m (m.heap a).cb) changed
          ∙ ap (reset_of now ms from_now a m) e
          ∙ ap (restarted now ms from_now a m) found,
      record {
        valid = inserted-IsValid m a ts t v out R.sorted members m'.tickled m'.fronts;
        others = inserted-Others m a ts t v out R.sorted members m'.tickled m'.fronts;
        timer = put-same m.heap a t;
        waits = inserted-contains m a ts t v out R.sorted members;
      },
    )

-- After addTimer: the new timer waits. onTimerInsertedAtFront is called if it is less than all that
-- wait, and no such call has been made since the last getNextTimer; and only then.
pub record Added (a : ℕ) (t : Timer) (m m' : TimerManager) : Type 0 where
  pub valid : IsValid m'
  pub others : Others a m m'
  pub timer : m'.heap a ≡ t
  pub waits : contains a m'.timers ≡ true
  pub told :
      All (λ b. less m'.heap a b ≡ true) m.timers
      → m.tickled ≡ false
      → (m'.fronts ≡ suc m.fronts) × (m'.tickled ≡ true)
  pub behind :
      (b : ℕ)
      → contains b m.timers ≡ true
      → less m'.heap b a ≡ true
      → (m'.fronts ≡ m.fronts) × (m'.tickled ≡ m.tickled)
  pub told_before : m.tickled ≡ true → (m'.fronts ≡ m.fronts) × (m'.tickled ≡ true)

is_first-insert :
    (heap : ℕ → Timer) (a : ℕ) (ts : List ℕ)
    → All (λ b. less heap a b ≡ true) ts
    → is_first a (insert heap a ts) ≡ true
is_first-insert heap a [] h = ground arith
is_first-insert heap a (b ∷ ts) h = rw h.0 (ground arith)

head_less :
    (heap : ℕ → Timer) (a b c : ℕ) (ts : List ℕ)
    → contains b (c ∷ ts) ≡ true
    → All (λ d. less heap c d ≡ true) ts
    → less heap b a ≡ true
    → less heap c a ≡ true
head_less heap a b c ts k h l = elim (eq-cases b c) [
  | inl e ↦ subst (λ x. less heap x a ≡ true) e l
  | inr o ↦
      less_trans heap c b a (All-contains (λ d. less heap c d ≡ true) ts b h (rw (sym k, o) refl)) l
]

is_first-insert_behind :
    (heap : ℕ → Timer) (a b : ℕ) (ts : List ℕ)
    → IsSorted heap ts
    → contains b ts ≡ true
    → less heap b a ≡ true
    → is_first a (insert heap a ts) ≡ false
is_first-insert_behind heap a b [] h k l = absurd (false≢true k)
is_first-insert_behind heap a b (c ∷ ts) h k l =
    let ahead = head_less heap a b c ts k h.0 l in
    rw (less-asymm heap c a ahead, ahead) (ne-sym c a (less-ne heap c a ahead))

-- addTimer on a valid manager, with the new timer at an address that is not in the set, leaves a
-- valid manager in which it waits for its time, every other timer being as it was.
-- onTimerInsertedAtFront is called where the timer is less than all that wait and the manager has
-- not been tickled, and not where it has been, or where a timer that waits is less.
pub add_timer-Added :
    (m : TimerManager) (now at ms : ℕ) (cb : Option Callback) (recurring : Bool)
    → IsValid m
    → contains at m.timers ≡ false
    → Added at
        (record { recurring = recurring; ms = ms; next = add64 now ms; cb = cb })
        m
        (add_timer now at ms cb recurring m)
unfolding add_timer add_timer_ptr
add_timer-Added m now at ms cb recurring v out =
    let t : Timer = record { recurring = recurring; ms = ms; next = add64 now ms; cb = cb } in
    let heap = put at t m.heap in
    let m' = add_timer now at ms cb recurring m in
    let members : (x : ℕ) → (x == at) ≡ false → contains x m.timers ≡ contains x m.timers =
      λ x o. refl in
    let sorted = put-IsSorted m.heap at t m.timers out v.sorted in
    record {
      valid = inserted-IsValid m at m.timers t v out v.sorted members m'.tickled m'.fronts;
      others = inserted-Others m at m.timers t v out v.sorted members m'.tickled m'.fronts;
      timer = put-same m.heap at t;
      waits = inserted-contains m at m.timers t v out v.sorted members;
      told = λ least quiet. rw (is_first-insert heap at m.timers least, quiet) (refl, refl);
      behind = λ b k l. rw (is_first-insert_behind heap at b m.timers sorted k l) (refl, refl);
      told_before = λ loud. rw loud (ground arith);
    }
