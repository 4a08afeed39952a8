-- ===== src/FdManager/Table.antt =====
-- The table of descriptors: get finds what it made, and del removes it.
use fatdog.Base.{
  ℕ, zero, suc, ◌-◌, ◌*◌, ◌/◌, ◌^◌, ◌<◌, ◌≤◌, ◌≡◌, refl, sym, ap, ◌∙◌, List, [], ◌∷◌, ◌++◌, Option,
  none, some, Bool, true, false, Bool-cases, length, take, get_elem?, ◌==◌, if◌then◌else◌, arith,
  inl, inr, le-or-lt, length-append, length-take, le→leb, lt→not_leb,
}
use fatdog.Base.Signed.{pos, size_le, size_le_lem, size_le-lt}
use mathlib.Core.Option.{some-ne-none}
use mathlib.Core.Bool.{true≢false}
use fatdog.FdManager.{
  FdManager, System, FdCtx, Outcome, returns, nulls, resize, set_elem?, placed, put, create, get_of,
  get, del_of, del, new_ctx,
}

length-nulls : (n : ℕ) → length (nulls n) ≡ n
length-nulls zero = refl
length-nulls (suc n) = omega (arith, length-nulls n)

length-resize : (n : ℕ) (xs : List (Option ℕ)) → length (resize n xs) ≡ n
length-resize n xs = omega (
  arith,
  length-append (take n xs) (nulls (n - length xs)),
  length-take n xs,
  length-nulls (n - length xs),
)

-- What stands at a place of a table, where null and no place are alike.
abbrev pub entry : List (Option ℕ) → ℕ → Option ℕ
entry [] i = none
entry (x ∷ xs) zero = x
entry (x ∷ xs) (suc i) = entry xs i

entry-nulls : (n i : ℕ) → entry (nulls n) i ≡ none
entry-nulls zero i = refl
entry-nulls (suc n) zero = refl
entry-nulls (suc n) (suc i) = entry-nulls n i

-- A larger table has the same entries.
entry-resize :
    (n : ℕ) (xs : List (Option ℕ)) (i : ℕ) → length xs ≤ n → entry (resize n xs) i ≡ entry xs i
entry-resize zero [] i h = refl
entry-resize (suc n) [] i h = entry-nulls (suc n - 0) i
entry-resize zero (x ∷ xs) i h = absurd (omega (arith, h))
entry-resize (suc n) (x ∷ xs) zero h = refl
entry-resize (suc n) (x ∷ xs) (suc i) h =
    ap (λ k. entry (take n xs ++ nulls k) i) {x = suc n - suc (length xs)} {y = n - length xs}
      (omega arith)
    ∙ entry-resize n xs i (omega (arith, h))

-- A table with one entry set.
pub record Set (xs : List (Option ℕ)) (i : ℕ) (p : Option ℕ) (ys : List (Option ℕ)) : Type 0 where
  pub here : get_elem? ys i ≡ some p
  pub others : (j : ℕ) → (j == i) ≡ false → entry ys j ≡ entry xs j
  pub same_length : length ys ≡ length xs

suc-eq : (i j : ℕ) → (suc i == suc j) ≡ (i == j)
suc-eq i j = ground arith

entry-head :
    (x p : Option ℕ) (xs : List (Option ℕ)) (j : ℕ)
    → (j == 0) ≡ false
    → entry (p ∷ xs) j ≡ entry (x ∷ xs) j
entry-head x p xs zero o = absurd (true≢false o)
entry-head x p xs (suc j) o = refl

entry-tail :
    (x : Option ℕ) (xs ys : List (Option ℕ)) (i j : ℕ)
    → ((k : ℕ) → (k == i) ≡ false → entry ys k ≡ entry xs k)
    → (j == suc i) ≡ false
    → entry (x ∷ ys) j ≡ entry (x ∷ xs) j
entry-tail x xs ys i zero f o = refl
entry-tail x xs ys i (suc j) f o = f j (sym (suc-eq j i) ∙ o)

pub set_elem?-Set :
    (xs : List (Option ℕ)) (i : ℕ) (p : Option ℕ)
    → i < length xs
    → (ys : List (Option ℕ)) × (set_elem? xs i p ≡ some ys) × Set xs i p ys
set_elem?-Set [] i p h = absurd (omega (arith, h))
set_elem?-Set (x ∷ xs) zero p h =
    (p ∷ xs, refl, record { here = refl; others = entry-head x p xs; same_length = refl })
set_elem?-Set (x ∷ xs) (suc i) p h =
    let (ys, found, S) = set_elem?-Set xs i p (omega (arith, h)) in
    (
      x ∷ ys,
      rw found refl,
      record {
        here = S.here;
        others = λ j o. entry-tail x xs ys i j S.others o;
        same_length = omega (arith, S.same_length);
      },
    )

-- get by the entry of the table, which is null also where the table is too short.
abbrev get_entry : ℕ → Bool → ℕ → FdManager → System → Option ℕ → Outcome (Option ℕ)
get_entry n auto_create at m os none = if auto_create then create n at m os else returns none m os
get_entry n auto_create at m os (some p) = returns (some p) m os

get_of-entry :
    (n : ℕ) (auto_create : Bool) (at : ℕ) (m : FdManager) (os : System) (xs : List (Option ℕ))
    (i : ℕ)
    → i < length xs
    → get_of n auto_create at m os (get_elem? xs i) ≡ get_entry n auto_create at m os (entry xs i)
get_of-entry n auto_create at m os [] i h = absurd (omega (arith, h))
get_of-entry n auto_create at m os (none ∷ xs) zero h = refl
get_of-entry n auto_create at m os (some p ∷ xs) zero h = refl
get_of-entry n auto_create at m os (x ∷ xs) (suc i) h =
    get_of-entry n auto_create at m os xs i (omega (arith, h))

entry-short : (xs : List (Option ℕ)) (i : ℕ) → length xs ≤ i → entry xs i ≡ none
entry-short [] i h = refl
entry-short (x ∷ xs) zero h = absurd (omega (arith, h))
entry-short (x ∷ xs) (suc i) h = entry-short xs i (omega (arith, h))

-- What get and del see of the table: nothing at a place that is not below its size as an int.
abbrev pub seen : List (Option ℕ) → ℕ → Option ℕ
seen xs n = if size_le (length xs) n then none else entry xs n

get-seen :
    (n : ℕ) (auto_create : Bool) (at : ℕ) (m : FdManager) (os : System)
    → get (pos n) auto_create at m os ≡ get_entry n auto_create at m os (seen m.datas n)
unfolding get
get-seen n auto_create at m os = elim (Bool-cases (size_le (length m.datas) n)) [
  | inl out ↦ rw out refl
  | inr within ↦ rw within (get_of-entry n auto_create at m os m.datas n (size_le-lt _ n within))
]

-- A table of less than 2^31 entries is seen whole.
seen-entry : (xs : List (Option ℕ)) (n : ℕ) → length xs < 2 ^ 31 → seen xs n ≡ entry xs n
seen-entry xs n h = elim (le-or-lt (length xs) n) [
  | inl short ↦
      rw (size_le_lem (length xs) n h, le→leb (length xs) n short) (sym (entry-short xs n short))
  | inr long ↦ rw (size_le_lem (length xs) n h, lt→not_leb (length xs) n long) refl
]

seen-none : (xs : List (Option ℕ)) (n : ℕ) → entry xs n ≡ none → seen xs n ≡ none
seen-none xs n e = rw e (ground arith)

-- The table keeps at least the entries that it is made with.
pub record IsValid (m : FdManager) : Type 0 where
  pub wide : 64 ≤ length m.datas

-- After get has made a context for the descriptor `n` at `at`.
pub record Created (n at : ℕ) (ctx : FdCtx) (m m' : FdManager) : Type 0 where
  pub valid : IsValid m'
  pub here : entry m'.datas n ≡ some at
  pub context : m'.heap at ≡ ctx
  pub others : (j : ℕ) → (j == n) ≡ false → entry m'.datas j ≡ entry m.datas j
  pub narrow : length m'.datas < 2 ^ 31
  pub other_contexts : (a : ℕ) → (a == at) ≡ false → m'.heap a ≡ m.heap a

get_elem?-entry :
    (xs : List (Option ℕ)) (i : ℕ) (p : Option ℕ) → get_elem? xs i ≡ some p → entry xs i ≡ p
get_elem?-entry [] i p h = absurd (some-ne-none p (sym h))
get_elem?-entry (x ∷ xs) zero p h = ap (λ o. elim o [ none ↦ x | some y ↦ y ]) h
get_elem?-entry (x ∷ xs) (suc i) p h = get_elem?-entry xs i p h

-- The table that get writes the entry `n` of.
room :
    (n : ℕ) (m : FdManager)
    → IsValid m
    → length m.datas < 2 ^ 31
    → n * 3 / 2 < 2 ^ 31
    → (xs : List (Option ℕ)) × ((if size_le (length m.datas) n
          then resize (n * 3 / 2) m.datas
          else m.datas)
        ≡ xs)
      × (n < length xs)
      × (64 ≤ length xs)
      × (length xs < 2 ^ 31)
      × ((j : ℕ) → entry xs j ≡ entry m.datas j)
room n m v narrow int = elim (le-or-lt (length m.datas) n) [
  | inl short ↦ (
    resize (n * 3 / 2) m.datas,
    rw (size_le_lem (length m.datas) n narrow, le→leb (length m.datas) n short) refl,
    omega (arith, short, v.wide, length-resize (n * 3 / 2) m.datas),
    omega (arith, short, v.wide, length-resize (n * 3 / 2) m.datas),
    omega (arith, int, length-resize (n * 3 / 2) m.datas),
    λ j. entry-resize (n * 3 / 2) m.datas j (omega (arith, short, v.wide)),
  )
  | inr long ↦ (
    m.datas,
    rw (size_le_lem (length m.datas) n narrow, lt→not_leb (length m.datas) n long) refl,
    long,
    v.wide,
    narrow,
    λ j. refl,
  )
]

create-Created :
    (n at : ℕ) (m : FdManager) (os : System)
    → IsValid m
    → length m.datas < 2 ^ 31
    → n * 3 / 2 < 2 ^ 31
    → (m' : FdManager) × (create n at m os ≡ returns (some at) m' (new_ctx (pos n) os).1)
      × Created n at (new_ctx (pos n) os).0 m m'
unfolding create
create-Created n at m os v narrow int =
    let (xs, table, within, wide, low, same) = room n m v narrow int in
    let (ys, found, S) = set_elem?-Set xs n (some at) within in
    let (ctx, os') = new_ctx (pos n) os in
    (
      record { heap = put at ctx m.heap; datas = ys },
      ap (λ t. placed at ctx m os' (set_elem? t n (some at))) table
          ∙ ap (placed at ctx m os') found,
      record {
        valid = record { wide = omega (arith, wide, S.same_length) };
        here = get_elem?-entry ys n (some at) S.here;
        context = ground arith;
        others = λ j o. S.others j o ∙ same j;
        narrow = omega (arith, low, S.same_length);
        other_contexts = λ a o. rw o refl;
      },
    )

-- On a table of 64 entries or more, but less than 2^31, get with auto_create of a descriptor that
-- is not negative, has no context, and whose 1.5-fold is below 2^31 returns a new context. In the
-- table behind it, which has again less than 2^31 entries however far it had to grow, that
-- descriptor has the context, and every other has what it had; and any later get of the descriptor
-- on that table returns the same context.
pub get-Created :
    (n at : ℕ) (m : FdManager) (os : System) (auto_create : Bool) (at_next : ℕ) (os_next : System)
    → IsValid m
    → length m.datas < 2 ^ 31
    → n * 3 / 2 < 2 ^ 31
    → entry m.datas n ≡ none
    → (m' : FdManager) × (get (pos n) true at m os ≡ returns (some at) m' (new_ctx (pos n) os).1)
      × Created n at (new_ctx (pos n) os).0 m m'
      × (get (pos n) auto_create at_next m' os_next ≡ returns (some at) m' os_next)
get-Created n at m os auto_create at_next os_next v narrow int e =
    let (m', made, C) = create-Created n at m os v narrow int in
    (
      m',
      get-seen n true at m os ∙ ap (get_entry n true at m os) (seen-none m.datas n e) ∙ made,
      C,
      get-seen n auto_create at_next m' os_next
          ∙ ap (get_entry n auto_create at_next m' os_next)
              (seen-entry m'.datas n C.narrow ∙ C.here),
    )

-- After del of the descriptor `n`.
pub record Deleted (n : ℕ) (m m' : FdManager) : Type 0 where
  pub valid : IsValid m'
  pub gone : seen m'.datas n ≡ none
  pub others : (j : ℕ) → (j == n) ≡ false → entry m'.datas j ≡ entry m.datas j
  pub contexts : m'.heap ≡ m.heap

-- On a table of at least 64 entries, del of a descriptor that is not negative returns, leaves every
-- other descriptor and all contexts as they were, and a get of the descriptor that does not create
-- returns null behind it.
pub del-Deleted :
    (n at : ℕ) (m : FdManager) (os : System)
    → IsValid m
    → (m' : FdManager) × (del (pos n) m os ≡ returns tt m' os)
      × Deleted n m m'
      × (get (pos n) false at m' os ≡ returns none m' os)
unfolding del
del-Deleted n at m os v = elim (Bool-cases (size_le (length m.datas) n)) [
  | inl out ↦
      let gone : seen m.datas n ≡ none = rw out refl in
      (
        m,
        rw out refl,
        record { valid = v; gone = gone; others = λ j o. refl; contexts = refl },
        get-seen n false at m os ∙ ap (get_entry n false at m os) gone,
      )
  | inr within ↦
      let (ys, found, S) = set_elem?-Set m.datas n none (size_le-lt _ n within) in
      let gone : seen ys n ≡ none = seen-none ys n (get_elem?-entry ys n none S.here) in
      let m' = record m { datas = ys } in
      (
        m',
        rw within (ap (del_of m os) found),
        record {
          valid = record { wide = omega (arith, v.wide, S.same_length) };
          gone = gone;
          others = S.others;
          contexts = refl;
        },
        get-seen n false at m' os ∙ ap (get_entry n false at m' os) gone,
      )
]
