-- ===== src/Servlet/Table.antt =====
-- Tables of servlets by URI: what a search finds behind an assignment, an erasure, an addition.
use fatdog.Base.{
  ◌≡◌, refl, sym, ap, ◌∙◌, [], ◌∷◌, ◌++◌, Option, none, some, true, false, if◌then◌else◌, arith,
  Bool-cases, inl, inr,
}
use mathlib.Core.Bool.{true≢false, false≢true}
use mathlib.Core.Option.{some-ne-none}
use fatdog.Servlet.{Servlet, Uri, Entries, same_uri, find, assign, erase}

pub same_uri_self : (u : Uri) → same_uri u u ≡ true
same_uri_self [] = refl
same_uri_self (x ∷ xs) = ground (arith, same_uri_self xs)

pub same_uri-eq : (u w : Uri) → same_uri u w ≡ true → u ≡ w
same_uri-eq [] [] h = refl
same_uri-eq [] (y ∷ ys) h = absurd (false≢true h)
same_uri-eq (x ∷ xs) [] h = absurd (false≢true h)
same_uri-eq (x ∷ xs) (y ∷ ys) h =
    let parts : (x ≡ y) × (same_uri xs ys ≡ true) = ground (arith, h) in
    ap (λ z. z ∷ xs) parts.0 ∙ ap (◌∷◌ y) (same_uri-eq xs ys parts.1)

-- No URI has two entries.
abbrev pub IsUnique : Entries → Type 0
IsUnique [] = Unit
IsUnique (e ∷ es) = (find e.0 es ≡ none) × IsUnique es

-- An entry of one URI is not found for another.
same_uri-other : (u w k : Uri) → same_uri k u ≡ true → same_uri u w ≡ false → same_uri k w ≡ false
same_uri-other u w k h o = ap (λ z. same_uri z w) (same_uri-eq k u h) ∙ o

pub same_uri-flip : (u w : Uri) → same_uri u w ≡ false → same_uri w u ≡ false
same_uri-flip u w o = elim (Bool-cases (same_uri w u)) [
  | inl k ↦
      absurd (true≢false (sym (same_uri_self w) ∙ ap (λ z. same_uri z w) (same_uri-eq w u k) ∙ o))
  | inr l ↦ l
]

pub find-assign : (u : Uri) (s : Option Servlet) (es : Entries) → find u (assign u s es) ≡ some s
find-assign u s [] = rw (same_uri_self u) refl
find-assign u s (e ∷ es) = elim (Bool-cases (same_uri e.0 u)) [
  | inl h ↦ rw (h, h) refl
  | inr o ↦ rw (o, o) (find-assign u s es)
]

pub find-assign_other :
    (u w : Uri) (s : Option Servlet) (es : Entries)
    → same_uri u w ≡ false
    → find w (assign u s es) ≡ find w es
find-assign_other u w s [] o = rw o refl
find-assign_other u w s (e ∷ es) o = elim (Bool-cases (same_uri e.0 u)) [
  | inl h ↦ rw (h, same_uri-other u w e.0 h o) refl
  | inr k ↦ rw (k, find-assign_other u w s es o) refl
]

pub find-erase : (u : Uri) (es : Entries) → IsUnique es → find u (erase u es) ≡ none
find-erase u [] v = refl
find-erase u (e ∷ es) v = elim (Bool-cases (same_uri e.0 u)) [
  | inl h ↦ rw h (ap (λ z. find z es) (sym (same_uri-eq e.0 u h)) ∙ v.0)
  | inr o ↦ rw (o, o) (find-erase u es v.1)
]

pub find-erase_other :
    (u w : Uri) (es : Entries) → same_uri u w ≡ false → find w (erase u es) ≡ find w es
find-erase_other u w [] o = refl
find-erase_other u w (e ∷ es) o = elim (Bool-cases (same_uri e.0 u)) [
  | inl h ↦ rw (h, same_uri-other u w e.0 h o) refl
  | inr k ↦ rw (k, find-erase_other u w es o) refl
]

-- What is not in a table is not in it after an erasure.
find-erase-none : (u w : Uri) (es : Entries) → find w es ≡ none → find w (erase u es) ≡ none
find-erase-none u w [] h = refl
find-erase-none u w (e ∷ es) h = elim (Bool-cases (same_uri e.0 w)) [
  | inl k ↦ absurd (some-ne-none e.1 (rw (sym h, k) refl))
  | inr k ↦
      let rest : find w es ≡ none = rw (sym h, k) refl in
      elim (Bool-cases (same_uri e.0 u)) [
        | inl l ↦ rw l rest
        | inr l ↦ rw (l, k) (find-erase-none u w es rest)
      ]
]

pub erase-IsUnique : (u : Uri) (es : Entries) → IsUnique es → IsUnique (erase u es)
erase-IsUnique u [] v = tt
erase-IsUnique u (e ∷ es) v = elim (Bool-cases (same_uri e.0 u)) [
  | inl h ↦ rw h v.1
  | inr o ↦ rw o (find-erase-none u e.0 es v.0, erase-IsUnique u es v.1)
]

pub find-append :
    (w u : Uri) (s : Option Servlet) (es : Entries)
    → find w (es ++ (u, s) ∷ [])
      ≡ (elim (find w es) [ none ↦ if same_uri u w then some s else none | some t ↦ some t ])
find-append w u s [] = refl
find-append w u s (e ∷ es) = elim (Bool-cases (same_uri e.0 w)) [
  | inl h ↦ rw h refl
  | inr o ↦ rw o (find-append w u s es)
]

pub append-IsUnique :
    (u : Uri) (s : Option Servlet) (es : Entries)
    → find u es ≡ none
    → IsUnique es
    → IsUnique (es ++ (u, s) ∷ [])
append-IsUnique u s [] h v = (refl, tt)
append-IsUnique u s (e ∷ es) h v = elim (Bool-cases (same_uri e.0 u)) [
  | inl k ↦ absurd (some-ne-none e.1 (rw (sym h, k) refl))
  | inr o ↦
      let rest : find u es ≡ none = rw (sym h, o) refl in
      let apart = same_uri-flip e.0 u o in
      (find-append e.0 u s es ∙ rw (v.0, apart) refl, append-IsUnique u s es rest v.1)
]

pub assign-IsUnique :
    (u : Uri) (s : Option Servlet) (es : Entries) → IsUnique es → IsUnique (assign u s es)
assign-IsUnique u s [] v = (refl, tt)
assign-IsUnique u s (e ∷ es) v = elim (Bool-cases (same_uri e.0 u)) [
  | inl h ↦ rw h v
  | inr o ↦
      rw o (find-assign_other u e.0 s es (same_uri-flip e.0 u o) ∙ v.0, assign-IsUnique u s es v.1)
]
