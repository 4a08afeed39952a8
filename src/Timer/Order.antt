-- ===== src/Timer/Order.antt =====
-- The set of timers: sorted by the comparator, and what insert and erase do to its elements.
use fatdog.Base.{
  ℕ, ◌≡◌, refl, sym, ◌∙◌, List, [], ◌∷◌, none, some, Bool, true, false, All, ◌==◌, if◌then◌else◌,
  arith, Bool-cases, inl, inr, subst, ◌⊎◌,
}
use mathlib.Core.Bool.{true≢false}
use fatdog.Timer.{Timer, less, insert, remove}

abbrev pub contains : ℕ → List ℕ → Bool
contains a [] = false
contains a (b ∷ ts) = if a == b then true else contains a ts

-- What is not in a list is not its head, and not in its tail.
pub out-cons :
    (x a : ℕ) (ts : List ℕ)
    → contains x (a ∷ ts) ≡ false
    → ((x == a) ≡ false) × (contains x ts ≡ false)
out-cons x a ts h = ground (arith, h)

-- What is in a list and not its head is in its tail.
pub in-tail :
    (x a : ℕ) (ts : List ℕ) → (x == a) ≡ false → contains x (a ∷ ts) ≡ true → contains x ts ≡ true
in-tail x a ts o h = ground (arith, h)

-- Every element is less than those behind it.
abbrev pub IsSorted : (ℕ → Timer) → List ℕ → Type 0
IsSorted heap [] = Unit
IsSorted heap (a ∷ ts) = All (λ b. less heap a b ≡ true) ts × IsSorted heap ts

pub eq-cases : (a b : ℕ) → (a ≡ b) ⊎ ((a == b) ≡ false)
eq-cases a b = ground arith

pub ne-sym : (a b : ℕ) → (a == b) ≡ false → (b == a) ≡ false
ne-sym a b h = ground arith

pub less_trans :
    (heap : ℕ → Timer) (a b c : ℕ)
    → less heap a b ≡ true
    → less heap b c ≡ true
    → less heap a c ≡ true
less_trans heap a b c h k = ground arith

pub less-asymm : (heap : ℕ → Timer) (a b : ℕ) → less heap a b ≡ true → less heap b a ≡ false
less-asymm heap a b h = ground arith

pub less-ne : (heap : ℕ → Timer) (a b : ℕ) → less heap a b ≡ true → (a == b) ≡ false
less-ne heap a b h = ground arith

-- Two timers of which neither is less are one timer.
pub less-same : (heap : ℕ → Timer) (a b : ℕ) → less heap a b ≡ false → less heap b a ≡ false → a ≡ b
less-same heap a b h k = ground arith

-- One of two timers is less than the other, or they are one.
pub less-cases :
    (heap : ℕ → Timer) (a b : ℕ)
    → (less heap a b ≡ true)
      ⊎ ((less heap a b ≡ false) × (less heap b a ≡ true))
      ⊎ ((less heap a b ≡ false) × (less heap b a ≡ false) × (a ≡ b))
less-cases heap a b = elim (Bool-cases (less heap a b)) [
  | inl h ↦ inl h
  | inr h ↦ elim (Bool-cases (less heap b a)) [
    | inl k ↦ inr (inl (h, k))
    | inr k ↦ inr (inr (h, k, less-same heap a b h k))
  ]
]

pub All-contains {ℓ} :
    (P : ℕ → Type ℓ) (ts : List ℕ) (x : ℕ) → All P ts → contains x ts ≡ true → P x
All-contains P [] x h k = absurd (true≢false (sym k))
All-contains P (b ∷ ts) x h k = elim (eq-cases x b) [
  | inl same ↦ subst P (sym same) h.0
  | inr other ↦ All-contains P ts x h.1 (rw (sym k, other) refl)
]

pub insert-contains :
    (heap : ℕ → Timer) (a : ℕ) (ts : List ℕ) (x : ℕ)
    → contains x (insert heap a ts) ≡ (if x == a then true else contains x ts)
insert-contains heap a [] x = refl
insert-contains heap a (b ∷ ts) x = elim (less-cases heap a b) [
  | inl h ↦ rw h refl
  | inr (inl (h, k)) ↦ rw (h, k, insert-contains heap a ts x) (ground arith)
  | inr (inr (h, k, e)) ↦ rw (h, k) (ground arith)
]

pub All-insert {ℓ} :
    (P : ℕ → Type ℓ) (heap : ℕ → Timer) (a : ℕ) (ts : List ℕ)
    → P a
    → All P ts
    → All P (insert heap a ts)
All-insert P heap a [] h k = (h, tt)
All-insert P heap a (b ∷ ts) h k = elim (less-cases heap a b) [
  | inl l ↦ rw l (h, k)
  | inr (inl (l, r)) ↦ rw (l, r) (k.0, All-insert P heap a ts h k.1)
  | inr (inr (l, r, e)) ↦ rw (l, r) k
]

All-less :
    (heap : ℕ → Timer) (a b : ℕ) (ts : List ℕ)
    → less heap a b ≡ true
    → All (λ c. less heap b c ≡ true) ts
    → All (λ c. less heap a c ≡ true) ts
All-less heap a b [] h k = tt
All-less heap a b (c ∷ ts) h k = (less_trans heap a b c h k.0, All-less heap a b ts h k.1)

pub insert-IsSorted :
    (heap : ℕ → Timer) (a : ℕ) (ts : List ℕ) → IsSorted heap ts → IsSorted heap (insert heap a ts)
insert-IsSorted heap a [] h = (tt, tt)
insert-IsSorted heap a (b ∷ ts) h = elim (less-cases heap a b) [
  | inl l ↦ rw l ((l, All-less heap a b ts l h.0), h)
  | inr (inl (l, r)) ↦
      rw (l, r)
        (All-insert (λ c. less heap b c ≡ true) heap a ts r h.0, insert-IsSorted heap a ts h.1)
  | inr (inr (l, r, e)) ↦ rw (l, r) h
]

-- The least element does not come again.
pub head-contains :
    (heap : ℕ → Timer) (b : ℕ) (ts : List ℕ)
    → All (λ c. less heap b c ≡ true) ts
    → contains b ts ≡ false
head-contains heap b ts h = elim (Bool-cases (contains b ts)) [
  | inl again ↦
      let self_less : less heap b b ≡ true =
        All-contains (λ c. less heap b c ≡ true) ts b h again in
      absurd (ground (arith, less-ne heap b b self_less))
  | inr out ↦ out
]

-- What erase of an element that was found leaves.
pub record Removed (heap : ℕ → Timer) (a : ℕ) (ts ts' : List ℕ) : Type 1 where
  pub sorted : IsSorted heap ts'
  pub others : (x : ℕ) → contains x ts' ≡ (if x == a then false else contains x ts)
  pub kept : (P : ℕ → Type 0) → All P ts → All P ts'

pub remove-Removed :
    (heap : ℕ → Timer) (a : ℕ) (ts : List ℕ)
    → IsSorted heap ts
    → contains a ts ≡ true
    → (ts' : List ℕ) × (remove heap a ts ≡ some ts') × Removed heap a ts ts'
remove-Removed heap a [] h k = absurd (true≢false (sym k))
remove-Removed heap a (b ∷ ts) h k = elim (less-cases heap b a) [
  | inl l ↦
      let (ts', found, R) =
        remove-Removed heap a ts h.1 (rw (sym k, ne-sym b a (less-ne heap b a l)) refl) in
      (
        b ∷ ts',
        rw (l, found) refl,
        record {
          sorted = (R.kept (λ c. less heap b c ≡ true) h.0, R.sorted);
          others = λ x. rw (R.others x) (ground (arith, less-ne heap b a l));
          kept = λ P p. (p.0, R.kept P p.1);
        },
      )
  | inr (inl (l, r)) ↦
      let later : less heap b a ≡ true =
        All-contains (λ c. less heap b c ≡ true) ts a h.0 (rw (sym k, less-ne heap a b r) refl) in
      absurd (true≢false (sym later ∙ l))
  | inr (inr (l, r, e)) ↦ (
    ts,
    rw (l, r) refl,
    record {
      sorted = h.1;
      others = λ x. elim (eq-cases x a) [
        | inl same ↦
            rw (same, e)
              (head-contains heap a ts (subst (λ c. All (λ d. less heap c d ≡ true) ts) e h.0)
                ∙ ground arith)
        | inr other ↦ rw (other, subst (λ c. (x == c) ≡ false) (sym e) other) refl
      ];
      kept = λ P p. p.1;
    },
  )
]

pub remove-none :
    (heap : ℕ → Timer) (a : ℕ) (ts : List ℕ) → contains a ts ≡ false → remove heap a ts ≡ none
remove-none heap a [] h = refl
remove-none heap a (b ∷ ts) h = elim (eq-cases a b) [
  | inl same ↦ absurd (grind (arith, same, h))
  | inr other ↦ elim (less-cases heap b a) [
    | inl l ↦ rw (l, remove-none heap a ts (rw (sym h, other) refl)) refl
    | inr (inl (l, r)) ↦ rw (l, r) refl
    | inr (inr (l, r, e)) ↦ absurd (grind (arith, e, other))
  ]
]
