-- ===== src/IoManager/Table.antt =====
-- The table of contexts: the context of a descriptor, and how many events there are.
use fatdog.Base.{
  ℕ, zero, suc, ◌+◌, ◌-◌, ◌*◌, ◌≤◌, ◌<◌, ◌≡◌, refl, ap, ◌∙◌, List, [], ◌∷◌, ◌++◌, none, some, false,
  length, take, get_elem?, ◌==◌, if◌then◌else◌, arith, length-append, length-take,
}
use fatdog.IoManager.Flags.{Events, no_events, size}
use fatdog.IoManager.{FdContext, empty_context, new_contexts, context_resize, set}

-- A context with no events.
abbrev pub new_context : ℕ → FdContext
new_context i = record { read = empty_context; write = empty_context; fd = i; events = no_events }

abbrev context_from : ℕ → List FdContext → ℕ → FdContext
context_from o [] x = new_context (o + x)
context_from o (c ∷ cs) zero = c
context_from o (c ∷ cs) (suc x) = context_from (suc o) cs x

-- The context of a descriptor: a new one, where the table does not reach it.
abbrev pub context_of : List FdContext → ℕ → FdContext
context_of cs x = context_from 0 cs x

abbrev pub count : List FdContext → ℕ
count [] = 0
count (c ∷ cs) = size c.events + count cs

context_from-new : (o n x : ℕ) → context_from o (new_contexts o n) x ≡ new_context (o + x)
context_from-new o zero x = refl
context_from-new o (suc n) zero = ap new_context {x = o} {y = o + 0} (omega arith)
context_from-new o (suc n) (suc x) =
    context_from-new (suc o) n x ∙ ap new_context {x = suc o + x} {y = o + suc x} (omega arith)

context_from-resize :
    (o n : ℕ) (cs : List FdContext) (x : ℕ)
    → length cs ≤ n
    → context_from o (take n cs ++ new_contexts (o + length cs) (n - length cs)) x
      ≡ context_from o cs x
context_from-resize o zero [] x h = refl
context_from-resize o (suc n) [] x h =
    ap (λ k. context_from o (new_contexts k (suc n - 0)) x) {x = o + 0} {y = o} (omega arith)
    ∙ context_from-new o (suc n - 0) x
context_from-resize o zero (c ∷ cs) x h = absurd (omega (arith, h))
context_from-resize o (suc n) (c ∷ cs) zero h = refl
context_from-resize o (suc n) (c ∷ cs) (suc x) h =
    ap (λ k. context_from (suc o) (take n cs ++ new_contexts k (suc n - suc (length cs))) x)
      {x = o + suc (length cs)} {y = suc o + length cs} (omega arith)
    ∙ ap (λ k. context_from (suc o) (take n cs ++ new_contexts (suc o + length cs) k) x)
        {x = suc n - suc (length cs)} {y = n - length cs} (omega arith)
    ∙ context_from-resize (suc o) n cs x (omega (arith, h))

-- A larger table has the same contexts.
pub context_of-context_resize :
    (n : ℕ) (cs : List FdContext) (x : ℕ)
    → length cs ≤ n
    → context_of (context_resize n cs) x ≡ context_of cs x
context_of-context_resize n cs x h =
    ap (λ k. context_from 0 (take n cs ++ new_contexts k (n - length cs)) x) {x = length cs}
      {y = 0 + length cs} (omega arith)
    ∙ context_from-resize 0 n cs x h

length-new_contexts : (i n : ℕ) → length (new_contexts i n) ≡ n
length-new_contexts i zero = refl
length-new_contexts i (suc n) = ap suc (length-new_contexts (suc i) n)

pub length-context_resize : (n : ℕ) (cs : List FdContext) → length (context_resize n cs) ≡ n
length-context_resize n cs = omega (
  arith,
  length-append (take n cs) (new_contexts (length cs) (n - length cs)),
  length-take n cs,
  length-new_contexts (length cs) (n - length cs),
)

count-new_contexts : (i n : ℕ) → count (new_contexts i n) ≡ 0
count-new_contexts i zero = refl
count-new_contexts i (suc n) = omega (arith, count-new_contexts (suc i) n)

count-append : (xs ys : List FdContext) → count (xs ++ ys) ≡ count xs + count ys
count-append [] ys = omega arith
count-append (c ∷ xs) ys = omega (arith, count-append xs ys)

take_all : (n : ℕ) (cs : List FdContext) → length cs ≤ n → take n cs ≡ cs
take_all zero [] h = refl
take_all (suc n) [] h = refl
take_all zero (c ∷ cs) h = absurd (omega (arith, h))
take_all (suc n) (c ∷ cs) h = ap (◌∷◌ c) (take_all n cs (omega (arith, h)))

pub count-context_resize :
    (n : ℕ) (cs : List FdContext) → length cs ≤ n → count (context_resize n cs) ≡ count cs
count-context_resize n cs h =
    count-append (take n cs) (new_contexts (length cs) (n - length cs))
    ∙ omega (arith, ap count (take_all n cs h), count-new_contexts (length cs) (n - length cs))

size-le : (es : Events) → size es ≤ 2
size-le es = ground arith

pub count-le : (cs : List FdContext) → count cs ≤ 2 * length cs
count-le [] = omega arith
count-le (c ∷ cs) = omega (arith, size-le c.events, count-le cs)

get_elem?-context_from :
    (o : ℕ) (cs : List FdContext) (x : ℕ)
    → x < length cs
    → get_elem? cs x ≡ some (context_from o cs x)
get_elem?-context_from o [] x h = absurd (omega (arith, h))
get_elem?-context_from o (c ∷ cs) zero h = refl
get_elem?-context_from o (c ∷ cs) (suc x) h = get_elem?-context_from (suc o) cs x (omega (arith, h))

context_from-short :
    (o : ℕ) (cs : List FdContext) (x : ℕ) → length cs ≤ x → (context_from o cs x).events ≡ no_events
context_from-short o [] x h = refl
context_from-short o (c ∷ cs) zero h = absurd (omega (arith, h))
context_from-short o (c ∷ cs) (suc x) h = context_from-short (suc o) cs x (omega (arith, h))

pub context_of-short :
    (cs : List FdContext) (x : ℕ) → length cs ≤ x → (context_of cs x).events ≡ no_events
context_of-short cs x h = context_from-short 0 cs x h

pub get_elem?-context_of :
    (cs : List FdContext) (x : ℕ) → x < length cs → get_elem? cs x ≡ some (context_of cs x)
get_elem?-context_of cs x h = get_elem?-context_from 0 cs x h

pub get_elem?-short : (cs : List FdContext) (x : ℕ) → length cs ≤ x → get_elem? cs x ≡ none
get_elem?-short [] x h = refl
get_elem?-short (c ∷ cs) zero h = absurd (omega (arith, h))
get_elem?-short (c ∷ cs) (suc x) h = get_elem?-short cs x (omega (arith, h))

suc-eq : (i j : ℕ) → (suc i == suc j) ≡ (i == j)
suc-eq i j = ground arith

context_from-set :
    (o : ℕ) (cs : List FdContext) (i : ℕ) (c : FdContext) (x : ℕ)
    → i < length cs
    → context_from o (set cs i c) x ≡ (if x == i then c else context_from o cs x)
context_from-set o [] i c x h = absurd (omega (arith, h))
context_from-set o (d ∷ cs) zero c zero h = refl
context_from-set o (d ∷ cs) zero c (suc x) h = rw (pos_suc x) refl
  where
    pos_suc : (x : ℕ) → (suc x == 0) ≡ false
    pos_suc x = ground arith
context_from-set o (d ∷ cs) (suc i) c zero h = rw (zero_suc i) refl
  where
    zero_suc : (x : ℕ) → (0 == suc x) ≡ false
    zero_suc x = ground arith
context_from-set o (d ∷ cs) (suc i) c (suc x) h =
    context_from-set (suc o) cs i c x (omega (arith, h)) ∙ rw (suc-eq x i) refl

pub context_of-set :
    (cs : List FdContext) (i : ℕ) (c : FdContext) (x : ℕ)
    → i < length cs
    → context_of (set cs i c) x ≡ (if x == i then c else context_of cs x)
context_of-set cs i c x h = context_from-set 0 cs i c x h

pub length-set : (cs : List FdContext) (i : ℕ) (c : FdContext) → length (set cs i c) ≡ length cs
length-set [] i c = refl
length-set (x ∷ cs) zero c = refl
length-set (x ∷ cs) (suc i) c = ap suc (length-set cs i c)

count-set_from :
    (o : ℕ) (cs : List FdContext) (i : ℕ) (c : FdContext)
    → i < length cs
    → count (set cs i c) + size (context_from o cs i).events ≡ count cs + size c.events
count-set_from o [] i c h = absurd (omega (arith, h))
count-set_from o (d ∷ cs) zero c h = omega arith
count-set_from o (d ∷ cs) (suc i) c h =
    omega (arith, count-set_from (suc o) cs i c (omega (arith, h)))

pub count-set :
    (cs : List FdContext) (i : ℕ) (c : FdContext)
    → i < length cs
    → count (set cs i c) + size (context_of cs i).events ≡ count cs + size c.events
count-set cs i c h = count-set_from 0 cs i c h

if_same : (i : ℕ) (c d : FdContext) → (if i == i then c else d) ≡ c
if_same i c d = ground arith

pub context_of-set_same :
    (cs : List FdContext) (i : ℕ) (c : FdContext) → i < length cs → context_of (set cs i c) i ≡ c
context_of-set_same cs i c h = context_of-set cs i c i h ∙ if_same i c (context_of cs i)

-- A table in which nothing is waited for.
pub count-none :
    (cs : List FdContext) → ((x : ℕ) → (context_of cs x).events ≡ no_events) → count cs ≡ 0
count-none cs h = count-none_from 0 cs h
  where
    count-none_from :
        (o : ℕ) (cs : List FdContext)
        → ((x : ℕ) → (context_from o cs x).events ≡ no_events)
        → count cs ≡ 0
    count-none_from o [] h = refl
    count-none_from o (c ∷ cs) h =
        omega (arith, ap size (h 0), count-none_from (suc o) cs (λ x. h (suc x)))
