-- ===== src/Timer/Expiry.antt =====
-- getNextTimer and listExpiredCb: which timers are due, and what becomes of them.
use fatdog.Base.{
  ℕ, ◌-◌, ◌<◌, ◌≤◌, ◌≡◌, refl, sym, ap, ◌∙◌, List, [], ◌∷◌, none, some, Bool, true, false, All, ltb,
  leb, lt→not_leb, subst, ◌==◌, if◌then◌else◌, arith, Bool-cases, inl, inr, take_while, drop_while,
}
use fatdog.Timer.{
  Timer, TimerManager, less, comparator, put, next_of, get_next_timer, split_expired,
}
use fatdog.Timer.Order.{contains, IsSorted, eq-cases, ne-sym, out-cons, in-tail, All-contains}
use fatdog.Timer.Update.{IsValid, put-same}

All-map {ℓ κ} :
    (P : ℕ → Type ℓ) (Q : ℕ → Type κ) (ts : List ℕ) → ((x : ℕ) → P x → Q x) → All P ts → All Q ts
All-map P Q [] f h = tt
All-map P Q (a ∷ ts) f h = (f a h.0, All-map P Q ts f h.1)

less-next : (heap : ℕ → Timer) (a b : ℕ) → less heap a b ≡ true → (heap a).next ≤ (heap b).next
less-next heap a b h = ground arith

-- On a valid manager in which a timer waits, getNextTimer returns the time from `now` to that of
-- the first of the set, or 0 where that has passed, and no timer that waits has an earlier time.
pub get_next_timer_lem :
    (m : TimerManager) (now a : ℕ) (ts : List ℕ)
    → IsValid m
    → m.timers ≡ a ∷ ts
    → ((get_next_timer now m).0 ≡ (m.heap a).next - now)
      × ((b : ℕ) → contains b m.timers ≡ true → (m.heap a).next ≤ (m.heap b).next)
unfolding get_next_timer
get_next_timer_lem m now a ts v e = (
  ap (next_of now m) e ∙ ground arith,
  λ b k. elim (eq-cases b a) [
    | inl same ↦ rw same (omega arith)
    | inr o ↦ less-next m.heap a b (
        All-contains (λ c. less m.heap a c ≡ true) ts b (subst (IsSorted m.heap) e v.sorted).0
          (in-tail b a ts o (ap (contains b) (sym e) ∙ k)))
  ],
)

-- The timers that are due, in their order.
abbrev pub due : (ℕ → Timer) → ℕ → List ℕ → List ℕ
due heap now [] = []
due heap now (a ∷ ts) = if leb (heap a).next now then a ∷ due heap now ts else due heap now ts

abbrev pub later : (ℕ → Timer) → ℕ → List ℕ → List ℕ
later heap now [] = []
later heap now (a ∷ ts) = if leb (heap a).next now then later heap now ts else a ∷ later heap now ts

module _ (heap : ℕ → Timer) (now at : ℕ) where
  abbrev with_now : ℕ → Timer
  with_now = put at (record { recurring = false; ms = 0; next = now; cb = none }) heap

  abbrev ahead : ℕ → Bool
  ahead a = comparator with_now (some a) (some at)

  abbrev at_now : ℕ → Bool
  at_now a = (heap a).next == now

  none_due :
      (ts : List ℕ)
      → All (λ b. now < (heap b).next) ts
      → (due heap now ts ≡ []) × (later heap now ts ≡ ts)
  none_due [] h = (refl, refl)
  none_due (a ∷ ts) h =
      let tail = none_due ts h.1 in
      rw (lt→not_leb (heap a).next now h.0, tail.0, tail.1) (refl, refl)

  -- The timers that are not ahead of now_timer.
  split_due :
      (ts : List ℕ)
      → IsSorted heap ts
      → All (λ b. now ≤ (heap b).next) ts
      → (take_while at_now ts ≡ due heap now ts) × (drop_while at_now ts ≡ later heap now ts)
  split_due [] s h = (refl, refl)
  split_due (a ∷ ts) s h = elim (eq-cases (heap a).next now) [
    | inl e ↦
        let tail = split_due ts s.1 h.1 in
        let is_now : at_now a ≡ true = ground (arith, e) in
        let is_due : leb (heap a).next now ≡ true = ground (arith, e) in
        rw (is_now, is_due, tail.0, tail.1) (refl, refl)
    | inr o ↦
        let over : now < (heap a).next = grind (arith, o, h.0) in
        let tail = none_due ts (
          All-map (λ b. less heap a b ≡ true) (λ b. now < (heap b).next) ts
            (λ b l. omega (arith, over, less-next heap a b l)) s.0) in
        rw (o, lt→not_leb (heap a).next now over, tail.0, tail.1) (refl, refl)
  ]

  ahead_lem :
      (a : ℕ)
      → (a == at) ≡ false
      → ahead a ≡ (
          if ltb (heap a).next now then true else if ltb now (heap a).next then false else ltb a at)
  ahead_lem a o =
      rw (o, put-same heap at (record { recurring = false; ms = 0; next = now; cb = none })) refl

  ahead-le : (a : ℕ) → (a == at) ≡ false → ahead a ≡ true → leb (heap a).next now ≡ true
  ahead-le a o h = let eq = sym (ahead_lem a o) ∙ h in ground (arith, eq)

  not_ahead-le : (a : ℕ) → (a == at) ≡ false → ahead a ≡ false → now ≤ (heap a).next
  not_ahead-le a o h = let eq = sym (ahead_lem a o) ∙ h in ground (arith, eq)

  pub split_expired_lem :
      (ts : List ℕ)
      → IsSorted heap ts
      → contains at ts ≡ false
      → split_expired heap now at ts ≡ (due heap now ts, later heap now ts)
  split_expired_lem [] s out = refl
  split_expired_lem (a ∷ ts) s out = elim (Bool-cases (ahead a)) [
    | inl h ↦
        let (o, tail_out) = out-cons at a ts out in
        rw (h, ahead-le a (ne-sym at a o) h)
          (ap (λ p. (a ∷ p.0, p.1)) (split_expired_lem ts s.1 tail_out))
    | inr h ↦
        let (o, tail_out) = out-cons at a ts out in
        let low : now ≤ (heap a).next = not_ahead-le a (ne-sym at a o) h in
        let (ahead_due, behind_later) = split_due (a ∷ ts) s (
          low,
          All-map (λ b. less heap a b ≡ true) (λ b. now ≤ (heap b).next) ts
              (λ b l. omega (arith, low, less-next heap a b l)) s.0,
        ) in
        rw h (
          ap (λ p. (p, drop_while at_now (a ∷ ts))) ahead_due
          ∙ ap (λ q. (due heap now (a ∷ ts), q)) behind_later)
  ]
