-- ===== src/Timer/Renew.antt =====
-- The loop of listExpiredCb over the timers that have expired.
use fatdog.Base.{
  ℕ, ◌≡◌, refl, sym, ap, ◌∙◌, subst, List, [], ◌∷◌, none, Bool, true, false, if◌then◌else◌, arith,
  Bool-cases, inl, inr, map, ◌==◌,
}
use fatdog.Base.Words.{add64}
use fatdog.Timer.{Timer, TimerManager, insert, put, renew, renewed, expire}
use fatdog.Timer.Order.{
  contains, IsSorted, eq-cases, ne-sym, out-cons, in-tail, insert-contains, insert-IsSorted,
}
use fatdog.Timer.Update.{IsValid, put-other, put-same, put-IsSorted}
use mathlib.Core.Bool.{false≢true, true≢false}

abbrev pub IsNodup : List ℕ → Type 0
IsNodup [] = Unit
IsNodup (a ∷ ts) = (contains a ts ≡ false) × IsNodup ts

-- The manager in the loop of listExpiredCb: the timers `xs` are still to be gone through.
pub record Pending (xs : List ℕ) (m : TimerManager) : Type 0 where
  pub sorted : IsSorted m.heap m.timers
  pub waiting : (a : ℕ) → contains a m.timers ≡ false → contains a xs ≡ false → (m.heap a).cb ≡ none
  pub apart : (a : ℕ) → contains a xs ≡ true → contains a m.timers ≡ false
  pub nodup : IsNodup xs

-- What the loop leaves: the timers `xs` are renewed, and those of them that recur wait again.
pub record Expired (now : ℕ) (xs : List ℕ) (m m' : TimerManager) : Type 0 where
  pub valid : IsValid m'
  pub members :
      (x : ℕ)
      → contains x m'.timers ≡ (if contains x xs then (m.heap x).recurring else contains x m.timers)
  pub fired :
      (x : ℕ)
      → contains x xs ≡ true
      → m'.heap x ≡ (
          if (m.heap x).recurring
          then record (m.heap x) { next = add64 now (m.heap x).ms }
          else record (m.heap x) { cb = none })
  pub untouched : (x : ℕ) → contains x xs ≡ false → m'.heap x ≡ m.heap x

requeue-contains :
    (heap : ℕ → Timer) (a : ℕ) (ts : List ℕ) (x : ℕ) (r : Bool)
    → contains a ts ≡ false
    → contains x (if r then insert heap a ts else ts) ≡ (if x == a then r else contains x ts)
requeue-contains heap a ts x true out = insert-contains heap a ts x
requeue-contains heap a ts x false out = elim (eq-cases x a) [
  | inl e ↦ ap (λ y. contains y ts) e ∙ out ∙ ground (arith, e)
  | inr o ↦ rw o refl
]

renewed-contains :
    (now a : ℕ) (m : TimerManager) (x : ℕ)
    → contains a m.timers ≡ false
    → contains x (renewed now a m).timers
      ≡ (if x == a then (m.heap a).recurring else contains x m.timers)
renewed-contains now a m x out =
    requeue-contains (put a (renew now (m.heap a)) m.heap) a m.timers x (m.heap a).recurring out

if_self : (a : ℕ) (r c : Bool) → (if a == a then r else c) ≡ r
if_self a r c = ground arith

if_other : (x a : ℕ) (r c : Bool) → (x == a) ≡ false → (if x == a then r else c) ≡ c
if_other x a r c o = rw o refl

-- A timer of a list is not one that is out of it.
ne-contains :
    (x a : ℕ) (ts : List ℕ) → contains x ts ≡ true → contains a ts ≡ false → (x == a) ≡ false
ne-contains x a ts k out = elim (eq-cases x a) [
  | inl e ↦ absurd (true≢false (sym k ∙ ap (λ y. contains y ts) e ∙ out))
  | inr o ↦ o
]

renewed-IsSorted :
    (now a : ℕ) (m : TimerManager)
    → contains a m.timers ≡ false
    → IsSorted m.heap m.timers
    → IsSorted (renewed now a m).heap (renewed now a m).timers
renewed-IsSorted now a m out h =
    let heap = put a (renew now (m.heap a)) m.heap in
    let kept = put-IsSorted m.heap a (renew now (m.heap a)) m.timers out h in
    elim (Bool-cases (m.heap a).recurring) [
      | inl again ↦
          subst (λ r. IsSorted heap (if r then insert heap a m.timers else m.timers)) (sym again)
            (insert-IsSorted heap a m.timers kept)
      | inr once ↦
          subst (λ r. IsSorted heap (if r then insert heap a m.timers else m.timers)) (sym once)
            kept
    ]

renew-once : (now : ℕ) (t : Timer) → t.recurring ≡ false → (renew now t).cb ≡ none
renew-once now t h = rw h refl

renewed-Pending :
    (now a : ℕ) (xs : List ℕ) (m : TimerManager) → Pending (a ∷ xs) m → Pending xs (renewed now a m)
renewed-Pending now a xs m p =
    let out = p.apart a (ground arith) in
    record {
      sorted = renewed-IsSorted now a m out p.sorted;
      waiting = λ x gone none_left. elim (eq-cases x a) [
        | inl e ↦
            let once : (m.heap a).recurring ≡ false =
              sym (if_self a (m.heap a).recurring (contains a m.timers))
              ∙ sym (renewed-contains now a m a out)
              ∙ ap (λ y. contains y (renewed now a m).timers) (sym e)
              ∙ gone in
            ap (λ y. ((renewed now a m).heap y).cb) e
            ∙ ap (λ t. t.cb) (put-same m.heap a (renew now (m.heap a)))
            ∙ renew-once now (m.heap a) once
        | inr o ↦
            ap (λ t. t.cb) (put-other m.heap a (renew now (m.heap a)) x o)
            ∙ p.waiting x
                (sym (if_other x a (m.heap a).recurring (contains x m.timers) o)
                  ∙ sym (renewed-contains now a m x out)
                  ∙ gone)
                (rw (o, none_left) refl)
      ];
      apart = λ x k.
          let o = ne-contains x a xs k p.nodup.0 in
          renewed-contains now a m x out
          ∙ if_other x a (m.heap a).recurring (contains x m.timers) o
          ∙ p.apart x (rw (o, k) refl);
      nodup = p.nodup.1;
    }

-- The timers that are still to be gone through are as they were.
renewed-map :
    (now a : ℕ) (m : TimerManager) (xs : List ℕ)
    → contains a xs ≡ false
    → map (λ x. ((renewed now a m).heap x).cb) xs ≡ map (λ x. (m.heap x).cb) xs
renewed-map now a m [] out = refl
renewed-map now a m (x ∷ xs) out =
    let (o, tail_out) = out-cons a x xs out in
    let same = ap (λ t. t.cb) (put-other m.heap a (renew now (m.heap a)) x (ne-sym a x o)) in
    ap (λ c. c ∷ map (λ y. ((renewed now a m).heap y).cb) xs) same
    ∙ ap (◌∷◌ (m.heap x).cb) (renewed-map now a m xs tail_out)

pub expire-cbs :
    (now : ℕ) (xs : List ℕ) (m : TimerManager)
    → Pending xs m
    → (expire now xs m).0 ≡ map (λ a. (m.heap a).cb) xs
expire-cbs now [] m p = refl
expire-cbs now (a ∷ xs) m p = ap (◌∷◌ (m.heap a).cb) (
    expire-cbs now xs (renewed now a m) (renewed-Pending now a xs m p)
    ∙ renewed-map now a m xs p.nodup.0)

if_if_self : (a : ℕ) (c r d : Bool) → (if (if a == a then true else c) then r else d) ≡ r
if_if_self a c r d = ground arith

members-step :
    (now a : ℕ) (xs : List ℕ) (m : TimerManager) (x : ℕ)
    → contains a m.timers ≡ false
    → contains a xs ≡ false
    → (if contains x xs
        then ((renewed now a m).heap x).recurring
        else contains x (renewed now a m).timers)
      ≡ (if contains x (a ∷ xs) then (m.heap x).recurring else contains x m.timers)
members-step now a xs m x out apart =
    let m' = renewed now a m in
    let again = (m.heap a).recurring in
    elim (eq-cases x a) [
      | inl e ↦
          subst
            (λ y.
              (if contains y xs then (m'.heap y).recurring else contains y m'.timers)
              ≡ (if contains y (a ∷ xs) then (m.heap y).recurring else contains y m.timers))
            (sym e)
            (ap (λ c. if c then (m'.heap a).recurring else contains a m'.timers) apart
              ∙ renewed-contains now a m a out
              ∙ if_self a again (contains a m.timers)
              ∙ sym (if_if_self a (contains a xs) again (contains a m.timers)))
      | inr o ↦
          ap (λ t. if contains x xs then t.recurring else contains x m'.timers)
            (put-other m.heap a (renew now (m.heap a)) x o)
          ∙ ap (λ c. if contains x xs then (m.heap x).recurring else c)
              (renewed-contains now a m x out ∙ if_other x a again (contains x m.timers) o)
          ∙ rw o refl
    ]

pub expire-Expired :
    (now : ℕ) (xs : List ℕ) (m : TimerManager) → Pending xs m → Expired now xs m (expire now xs m).1
expire-Expired now [] m p = record {
  valid = record { sorted = p.sorted; waiting = λ a gone. p.waiting a gone refl };
  members = λ x. refl;
  fired = λ x k. absurd (false≢true k);
  untouched = λ x k. refl;
}
expire-Expired now (a ∷ xs) m p =
    let out = p.apart a (ground arith) in
    let E = expire-Expired now xs (renewed now a m) (renewed-Pending now a xs m p) in
    record {
      valid = E.valid;
      members = λ x. E.members x ∙ members-step now a xs m x out p.nodup.0;
      fired = λ x k. elim (eq-cases x a) [
        | inl e ↦ rw e (E.untouched a p.nodup.0 ∙ put-same m.heap a (renew now (m.heap a)))
        | inr o ↦
            E.fired x (in-tail x a xs o k)
            ∙ ap (renew now) (put-other m.heap a (renew now (m.heap a)) x o)
      ];
      untouched = λ x k.
          let (o, tail_out) = out-cons x a xs k in
          E.untouched x tail_out ∙ put-other m.heap a (renew now (m.heap a)) x o;
    }
