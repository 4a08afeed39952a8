-- ===== src/Timer/Expired.antt =====
-- listExpiredCb on a valid manager.
use fatdog.Base.{
  ℕ, ◌≡◌, refl, sym, ap, ◌∙◌, subst, List, [], ◌∷◌, Bool, true, false, All, leb, if◌then◌else◌,
  arith, Bool-cases, inl, inr, map, ◌==◌,
}
use fatdog.Timer.{Timer, TimerManager, less, expire, expire_of, list_expired_cb}
use fatdog.Timer.Order.{contains, IsSorted, eq-cases, head-contains}
use fatdog.Timer.Update.{IsValid}
use fatdog.Timer.Expiry.{due, later, split_expired_lem}
use mathlib.Core.Bool.{true≢false}
use fatdog.Timer.Renew.{IsNodup, Pending, Expired, expire-cbs, expire-Expired}

contains-if :
    (x a : ℕ) (ts : List ℕ) (c : Bool)
    → contains x (if c then a ∷ ts else ts)
      ≡ (if (if x == a then c else false) then true else contains x ts)
contains-if x a ts true = ground arith
contains-if x a ts false = ground arith

contains-unless :
    (x a : ℕ) (ts : List ℕ) (c : Bool)
    → contains x (if c then ts else a ∷ ts)
      ≡ (if (if x == a then if c then false else true else false) then true else contains x ts)
contains-unless x a ts true = ground arith
contains-unless x a ts false = ground arith

filter-step :
    (b la l c : Bool)
    → (b ≡ true → l ≡ la)
    → (if (if b then la else false) then true else if c then l else false)
      ≡ (if (if b then true else c) then l else false)
filter-step true true l c f = sym (f refl)
filter-step true false l true f = refl
filter-step true false l false f = sym (f refl)
filter-step false la l c f = refl

-- The timers that are due and those that are not, of a set that is sorted.
module _ (heap : ℕ → Timer) (now : ℕ) where
  abbrev is_due : ℕ → Bool
  is_due x = leb (heap x).next now

  same-is_due : (x a : ℕ) → (x == a) ≡ true → is_due x ≡ is_due a
  same-is_due x a b = elim (eq-cases x a) [
    | inl e ↦ ap is_due e
    | inr o ↦ absurd (true≢false (sym b ∙ o))
  ]

  contains-due :
      (ts : List ℕ) (x : ℕ)
      → contains x (due heap now ts) ≡ (if contains x ts then is_due x else false)
  contains-due [] x = refl
  contains-due (a ∷ ts) x =
      contains-if x a (due heap now ts) (is_due a)
      ∙ ap (λ c. if (if x == a then is_due a else false) then true else c) (contains-due ts x)
      ∙ filter-step (x == a) (is_due a) (is_due x) (contains x ts) (same-is_due x a)

  contains-later :
      (ts : List ℕ) (x : ℕ)
      → contains x (later heap now ts)
        ≡ (if contains x ts then if is_due x then false else true else false)
  contains-later [] x = refl
  contains-later (a ∷ ts) x =
      contains-unless x a (later heap now ts) (is_due a)
      ∙ ap (λ c. if (if x == a then if is_due a then false else true else false) then true else c)
          (contains-later ts x)
      ∙ filter-step (x == a) (if is_due a then false else true) (if is_due x then false else true)
          (contains x ts) (λ b. ap (λ c. if c then false else true) (same-is_due x a b))

  All-due {ℓ} : (P : ℕ → Type ℓ) (ts : List ℕ) → All P ts → All P (due heap now ts)
  All-due P [] h = tt
  All-due P (a ∷ ts) h = elim (Bool-cases (leb (heap a).next now)) [
    | inl k ↦ rw k (h.0, All-due P ts h.1)
    | inr k ↦ rw k (All-due P ts h.1)
  ]

  All-later {ℓ} : (P : ℕ → Type ℓ) (ts : List ℕ) → All P ts → All P (later heap now ts)
  All-later P [] h = tt
  All-later P (a ∷ ts) h = elim (Bool-cases (leb (heap a).next now)) [
    | inl k ↦ rw k (All-later P ts h.1)
    | inr k ↦ rw k (h.0, All-later P ts h.1)
  ]

  later-IsSorted : (ts : List ℕ) → IsSorted heap ts → IsSorted heap (later heap now ts)
  later-IsSorted [] h = tt
  later-IsSorted (a ∷ ts) h = elim (Bool-cases (leb (heap a).next now)) [
    | inl k ↦ rw k (later-IsSorted ts h.1)
    | inr k ↦ rw k (All-later (λ b. less heap a b ≡ true) ts h.0, later-IsSorted ts h.1)
  ]

  due-IsNodup : (ts : List ℕ) → IsSorted heap ts → IsNodup (due heap now ts)
  due-IsNodup [] h = tt
  due-IsNodup (a ∷ ts) h = elim (Bool-cases (leb (heap a).next now)) [
    | inl k ↦ rw k (
      head-contains heap a (due heap now ts) (All-due (λ b. less heap a b ≡ true) ts h.0),
      due-IsNodup ts h.1,
    )
    | inr k ↦ rw k (due-IsNodup ts h.1)
  ]

-- The manager that the loop starts from.
module _ (m : TimerManager) (now : ℕ) (v : IsValid m) where
  abbrev started : TimerManager
  started = record m { timers = later m.heap now m.timers }

  due-or-later :
      (x : ℕ)
      → contains x (due m.heap now m.timers) ≡ false
      → contains x (later m.heap now m.timers) ≡ contains x m.timers
  due-or-later x k =
      let d = sym (contains-due m.heap now m.timers x) ∙ k in
      contains-later m.heap now m.timers x ∙ undue (contains x m.timers) (is_due m.heap now x) d
    where
      undue :
          (c d : Bool)
          → (if c then d else false) ≡ false
          → (if c then if d then false else true else false) ≡ c
      undue true true h = sym h
      undue true false h = refl
      undue false d h = refl

  due-not-later :
      (x : ℕ)
      → contains x (due m.heap now m.timers) ≡ true
      → contains x (later m.heap now m.timers) ≡ false
  due-not-later x k =
      contains-later m.heap now m.timers x
      ∙ overdue (contains x m.timers) (is_due m.heap now x)
          (sym (contains-due m.heap now m.timers x) ∙ k)
    where
      overdue :
          (c d : Bool)
          → (if c then d else false) ≡ true
          → (if c then if d then false else true else false) ≡ false
      overdue true true h = refl
      overdue true false h = sym h
      overdue false d h = refl

  started-Pending : Pending (due m.heap now m.timers) started
  started-Pending = record {
    sorted = later-IsSorted m.heap now m.timers v.sorted;
    waiting = λ a gone k. v.waiting a (sym (due-or-later a k) ∙ gone);
    apart = due-not-later;
    nodup = due-IsNodup m.heap now m.timers v.sorted;
  }

  expire_of-expire :
      (at : ℕ) (ts : List ℕ)
      → m.timers ≡ ts
      → contains at m.timers ≡ false
      → expire_of now at m ts
        ≡ expire now (due m.heap now ts) (record m { timers = later m.heap now ts })
  expire_of-expire at [] e out = ap (λ l. ([], record m { timers = l })) e
  expire_of-expire at (a ∷ ts) e out =
      ap (λ s. expire now s.0 (record m { timers = s.1 }))
        (split_expired_lem m.heap now at (a ∷ ts) (subst (IsSorted m.heap) e v.sorted)
          (ap (contains at) (sym e) ∙ out))

  -- listExpiredCb on a valid manager, with now_timer at an address that is not in the set,
  -- returns the functions of exactly the timers whose time is not beyond `now`, in the order of
  -- the set, and leaves a valid manager: of those timers the ones that recur are in the set, with
  -- their time counted from `now`, and the others are out of it and have lost their function;
  -- every other timer is as it was, in the set or out of it.
  pub list_expired_cb-Expired :
      (at : ℕ)
      → contains at m.timers ≡ false
      → ((list_expired_cb now at m).0 ≡ map (λ a. (m.heap a).cb) (due m.heap now m.timers))
        × Expired now (due m.heap now m.timers) m (list_expired_cb now at m).1
  unfolding list_expired_cb
  list_expired_cb-Expired at out =
      let xs = due m.heap now m.timers in
      let run = sym (expire_of-expire at m.timers refl out) in
      let E = expire-Expired now xs started started-Pending in
      (
        ap (λ r. r.0) (sym run) ∙ expire-cbs now xs started started-Pending,
        subst (λ r. Expired now xs m r.1) run
            (record {
              valid = E.valid;
              members = λ x. E.members x ∙ elim (Bool-cases (contains x xs)) [
                | inl k ↦ rw k refl
                | inr k ↦ rw k (due-or-later x k)
              ];
              fired = E.fired;
              untouched = E.untouched;
            }),
      )
