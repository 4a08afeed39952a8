-- ===== src/Http/Lookup.antt =====
-- What is found in a map behind an assignment and an erase.
use fatdog.Base.{
  ◌≡◌, refl, sym, ◌∙◌, List, [], ◌∷◌, none, some, true, false, if◌then◌else◌, arith, inl, inr,
  Bool-cases, All,
}
use fatdog.Http.Strings.{Text, case_insensitive_less}
use fatdog.Http.Fields.{Entry, find, assign, erase}
use fatdog.Http.Order.{same_key, less_trans, less_asym, same_key-less}

-- The keys grow.
abbrev pub IsSorted : List Entry → Type 0
IsSorted [] = Unit
IsSorted (e ∷ es) = All (λ (f : Entry). case_insensitive_less e.0 f.0 ≡ true) es × IsSorted es

pub find-assign :
    (key val other : Text) (es : List Entry)
    → find other (assign key val es) ≡ (if same_key key other then some val else find other es)
unfolding find assign
find-assign key val other [] = ground arith
find-assign key val other (e ∷ es) = elim (Bool-cases (case_insensitive_less e.0 key)) [
  | inl before ↦ rw before (
      ground (
        arith,
        find-assign key val other es,
        less_trans e.0 key other,
        less_asym e.0 key,
        less_asym e.0 other,
        same_key-less key other e.0,
      ))
  | inr o ↦ elim (Bool-cases (case_insensitive_less key e.0)) [
    | inl beyond ↦
        rw (o, beyond)
          (ground (
            arith,
            less_trans other key e.0,
            less_asym other e.0,
            less_asym other key,
            less_asym key other,
            same_key-less key other e.0,
          ))
    | inr same ↦ rw (o, same) (ground (arith, same_key-less e.0 key other o same))
  ]
]

-- Every entry is beyond a key.
abbrev IsBeyond : Text → List Entry → Type 0
IsBeyond key es = All (λ (f : Entry). case_insensitive_less key f.0 ≡ true) es

IsBeyond-trans :
    (key other : Text) (es : List Entry)
    → case_insensitive_less key other ≡ true
    → IsBeyond other es
    → IsBeyond key es
IsBeyond-trans key other [] h all = tt
IsBeyond-trans key other (e ∷ es) h (first, rest) =
    (less_trans key other e.0 h first, IsBeyond-trans key other es h rest)

find-IsBeyond : (key : Text) (es : List Entry) → IsBeyond key es → find key es ≡ none
unfolding find
find-IsBeyond key [] all = refl
find-IsBeyond key (e ∷ es) (first, rest) = rw (less_asym key e.0 first, first) refl

pub find-erase :
    (key other : Text) (es : List Entry)
    → IsSorted es
    → find other (erase key es) ≡ (if same_key key other then none else find other es)
unfolding find erase
find-erase key other [] sorted = ground arith
find-erase key other (e ∷ es) (beyond, sorted) = elim (Bool-cases (case_insensitive_less e.0 key)) [
  | inl before ↦ rw before (
      ground (
        arith,
        find-erase key other es sorted,
        less_trans e.0 key other,
        less_asym e.0 key,
        less_asym e.0 other,
        same_key-less key other e.0,
      ))
  | inr o ↦ elim (Bool-cases (case_insensitive_less key e.0)) [
    | inl after ↦
        rw (o, after)
          (ground (
            arith,
            less_trans other key e.0,
            less_asym other e.0,
            less_asym other key,
            less_asym key other,
            same_key-less key other e.0,
          ))
    | inr same ↦
        rw (o, same)
          (elim (Bool-cases (case_insensitive_less other e.0)) [
            | inl less ↦
                find-IsBeyond other es (IsBeyond-trans other e.0 es less beyond)
                ∙ ground (arith, less, less_asym other e.0, same_key-less e.0 key other o same)
            | inr more ↦ elim (Bool-cases (case_insensitive_less e.0 other)) [
              | inl less ↦ ground (arith, less, more, same_key-less e.0 key other o same)
              | inr equal ↦
                  find-IsBeyond other es (IsBeyond_same e.0 other es equal more beyond)
                  ∙ ground (arith, equal, more, same_key-less e.0 key other o same)
            ]
          ])
  ]
]
  where
    IsBeyond_same :
        (key other : Text) (es : List Entry)
        → case_insensitive_less key other ≡ false
        → case_insensitive_less other key ≡ false
        → IsBeyond key es
        → IsBeyond other es
    IsBeyond_same key other [] h o all = tt
    IsBeyond_same key other (e ∷ es) h o (first, rest) =
        (sym (same_key-less key other e.0 h o).0 ∙ first, IsBeyond_same key other es h o rest)

assign-IsBeyond :
    (low key val : Text) (es : List Entry)
    → case_insensitive_less low key ≡ true
    → IsBeyond low es
    → IsBeyond low (assign key val es)
unfolding assign
assign-IsBeyond low key val [] h all = (h, tt)
assign-IsBeyond low key val (e ∷ es) h (first, rest) =
    elim (Bool-cases (case_insensitive_less e.0 key)) [
      | inl before ↦ rw before (first, assign-IsBeyond low key val es h rest)
      | inr o ↦ elim (Bool-cases (case_insensitive_less key e.0)) [
        | inl beyond ↦ rw (o, beyond) (h, (first, rest))
        | inr same ↦ rw (o, same) (first, rest)
      ]
    ]

pub assign-IsSorted :
    (key val : Text) (es : List Entry) → IsSorted es → IsSorted (assign key val es)
unfolding assign
assign-IsSorted key val [] sorted = (tt, tt)
assign-IsSorted key val (e ∷ es) (first, sorted) =
    elim (Bool-cases (case_insensitive_less e.0 key)) [
      | inl before ↦
          rw before (assign-IsBeyond e.0 key val es before first, assign-IsSorted key val es sorted)
      | inr o ↦ elim (Bool-cases (case_insensitive_less key e.0)) [
        | inl beyond ↦
            rw (o, beyond) ((beyond, IsBeyond-trans key e.0 es beyond first), (first, sorted))
        | inr same ↦ rw (o, same) (first, sorted)
      ]
    ]

erase-IsBeyond : (low key : Text) (es : List Entry) → IsBeyond low es → IsBeyond low (erase key es)
unfolding erase
erase-IsBeyond low key [] all = tt
erase-IsBeyond low key (e ∷ es) (first, rest) = elim (Bool-cases (case_insensitive_less e.0 key)) [
  | inl before ↦ rw before (first, erase-IsBeyond low key es rest)
  | inr o ↦ elim (Bool-cases (case_insensitive_less key e.0)) [
    | inl beyond ↦ rw (o, beyond) (first, rest)
    | inr same ↦ rw (o, same) rest
  ]
]

pub erase-IsSorted : (key : Text) (es : List Entry) → IsSorted es → IsSorted (erase key es)
unfolding erase
erase-IsSorted key [] sorted = tt
erase-IsSorted key (e ∷ es) (first, sorted) = elim (Bool-cases (case_insensitive_less e.0 key)) [
  | inl before ↦ rw before (erase-IsBeyond e.0 key es first, erase-IsSorted key es sorted)
  | inr o ↦ elim (Bool-cases (case_insensitive_less key e.0)) [
    | inl beyond ↦ rw (o, beyond) (first, sorted)
    | inr same ↦ rw (o, same) sorted
  ]
]
