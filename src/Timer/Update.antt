-- ===== src/Timer/Update.antt =====
-- The invariant of the manager, and the operations on one timer.
use fatdog.Base.{
  ℕ, ◌≡◌, refl, sym, ap, ◌∙◌, List, [], ◌∷◌, none, some, Bool, true, false, All, ◌==◌, arith,
  Bool-cases, inl, inr,
}
use fatdog.Timer.{Timer, TimerManager, Callback, less, insert, put}
use fatdog.Timer.Order.{contains, IsSorted, eq-cases, insert-contains, insert-IsSorted}
use mathlib.Core.Option.{some-ne-none}
use mathlib.Core.Bool.{true≢false}

-- The set is sorted, and a timer that still has its function is in it.
pub record IsValid (m : TimerManager) : Type 0 where
  pub sorted : IsSorted m.heap m.timers
  pub waiting : (a : ℕ) → contains a m.timers ≡ false → (m.heap a).cb ≡ none

All-less-cong :
    (heap heap' : ℕ → Timer) (a : ℕ) (ts : List ℕ)
    → (heap a).next ≡ (heap' a).next
    → ((x : ℕ) → contains x ts ≡ true → (heap x).next ≡ (heap' x).next)
    → All (λ b. less heap a b ≡ true) ts
    → All (λ b. less heap' a b ≡ true) ts
All-less-cong heap heap' a [] e f h = tt
All-less-cong heap heap' a (b ∷ ts) e f h = (
  rw (sym e, sym (f b (ground arith))) h.0,
  All-less-cong heap heap' a ts e (λ x k. f x (rw k (ground arith))) h.1,
)

-- The order only looks at the times of the elements.
pub IsSorted-cong :
    (heap heap' : ℕ → Timer) (ts : List ℕ)
    → ((x : ℕ) → contains x ts ≡ true → (heap x).next ≡ (heap' x).next)
    → IsSorted heap ts
    → IsSorted heap' ts
IsSorted-cong heap heap' [] f h = tt
IsSorted-cong heap heap' (a ∷ ts) f h = (
  All-less-cong heap heap' a ts (f a (ground arith)) (λ x k. f x (rw k (ground arith))) h.0,
  IsSorted-cong heap heap' ts (λ x k. f x (rw k (ground arith))) h.1,
)

pub put-other :
    (heap : ℕ → Timer) (a : ℕ) (t : Timer) (x : ℕ) → (x == a) ≡ false → put a t heap x ≡ heap x
put-other heap a t x h = rw h refl

pub put-same : (heap : ℕ → Timer) (a : ℕ) (t : Timer) → put a t heap a ≡ t
put-same heap a t = ground arith

-- A change of a timer that is out of the set leaves the set sorted.
pub put-IsSorted :
    (heap : ℕ → Timer) (a : ℕ) (t : Timer) (ts : List ℕ)
    → contains a ts ≡ false
    → IsSorted heap ts
    → IsSorted (put a t heap) ts
put-IsSorted heap a t ts out h = IsSorted-cong heap (put a t heap) ts same_next h
  where
    same_next : (x : ℕ) → contains x ts ≡ true → (heap x).next ≡ (put a t heap x).next
    same_next x k = elim (eq-cases x a) [
      | inl e ↦ absurd (true≢false (sym k ∙ ap (λ y. contains y ts) e ∙ out))
      | inr o ↦ rw o refl
    ]

-- Whether a timer is in the set, for a timer that has its function.
pub has_cb-contains :
    (m : TimerManager) (a : ℕ) (f : Callback)
    → IsValid m
    → (m.heap a).cb ≡ some f
    → contains a m.timers ≡ true
has_cb-contains m a f v e = elim (Bool-cases (contains a m.timers)) [
  | inl here ↦ here
  | inr gone ↦ absurd (some-ne-none f (sym e ∙ v.waiting a gone))
]

-- What no operation on a timer changes: the other timers, and whether they are in the set.
pub record Others (a : ℕ) (m m' : TimerManager) : Type 0 where
  pub same_timer : (x : ℕ) → (x == a) ≡ false → m'.heap x ≡ m.heap x
  pub same_member : (x : ℕ) → (x == a) ≡ false → contains x m'.timers ≡ contains x m.timers

-- What a change of a timer comes to that is out of the set, and goes into it.
module _ (m : TimerManager) (a : ℕ) (ts : List ℕ) (t : Timer) (v : IsValid m)
    (out : contains a ts ≡ false) (sorted : IsSorted m.heap ts)
    (members : (x : ℕ) → (x == a) ≡ false → contains x ts ≡ contains x m.timers) where
  abbrev heap' : ℕ → Timer
  heap' = put a t m.heap

  pub inserted-contains : contains a (insert heap' a ts) ≡ true
  inserted-contains = insert-contains heap' a ts a ∙ ground arith

  inserted-others :
      (x : ℕ) → (x == a) ≡ false → contains x (insert heap' a ts) ≡ contains x m.timers
  inserted-others x o = insert-contains heap' a ts x ∙ rw o (members x o)

  pub inserted-IsValid :
      (tickled : Bool) (fronts : ℕ)
      → IsValid
          (record { heap = heap'; timers = insert heap' a ts; tickled = tickled; fronts = fronts })
  inserted-IsValid tickled fronts = record {
    sorted = insert-IsSorted heap' a ts (put-IsSorted m.heap a t ts out sorted);
    waiting = λ x gone. elim (eq-cases x a) [
      | inl e ↦ absurd (
          true≢false
            (sym inserted-contains ∙ ap (λ y. contains y (insert heap' a ts)) (sym e) ∙ gone))
      | inr o ↦ rw (put-other m.heap a t x o) (v.waiting x (sym (inserted-others x o) ∙ gone))
    ];
  }

  pub inserted-Others :
      (tickled : Bool) (fronts : ℕ)
      → Others a m
          (record { heap = heap'; timers = insert heap' a ts; tickled = tickled; fronts = fronts })
  inserted-Others tickled fronts = record {
    same_timer = put-other m.heap a t;
    same_member = inserted-others;
  }
