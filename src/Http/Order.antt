-- ===== src/Http/Order.antt =====
-- The order of CaseInsensitiveLess.
use fatdog.Base.{
  ℕ, ◌+◌, ◌==◌, leb, ◌&&◌, map, ◌≡◌, refl, sym, ap, ◌∙◌, [], ◌∷◌, Bool, true, false, not,
  if◌then◌else◌, arith, inl, inr, Bool-cases,
}
use fatdog.Http.Strings.{Text, c_str, to_lower, folded, text_less, case_insensitive_less}
use mathlib.Core.Bool.{false≢true}

irreflexive : (s : Text) → text_less s s ≡ false
irreflexive [] = refl
irreflexive (c ∷ s) = ground (arith, irreflexive s)

transitive : (s t u : Text) → text_less s t ≡ true → text_less t u ≡ true → text_less s u ≡ true
transitive [] [] u h k = k
transitive [] (d ∷ t) [] h k = k
transitive [] (d ∷ t) (e ∷ u) h k = refl
transitive (c ∷ s) [] u h k = absurd (false≢true h)
transitive (c ∷ s) (d ∷ t) [] h k = absurd (false≢true k)
transitive (c ∷ s) (d ∷ t) (e ∷ u) h k = ground (arith, h, k, transitive s t u)

total : (s t : Text) → text_less s t ≡ false → text_less t s ≡ false → s ≡ t
total [] [] h k = refl
total [] (d ∷ t) h k = absurd (false≢true (sym h))
total (c ∷ s) [] h k = absurd (false≢true (sym k))
total (c ∷ s) (d ∷ t) h k =
    let same : c ≡ d = ground (arith, h, k) in
    ap (λ x. x ∷ s) same
    ∙ ap (λ s. d ∷ s) (total s t (ground (arith, h, k, same)) (ground (arith, h, k, same)))

-- Two keys are the same for the map.
abbrev pub same_key : Text → Text → Bool
same_key k j = if case_insensitive_less k j then false else not (case_insensitive_less j k)

pub less_trans :
    (k j l : Text)
    → case_insensitive_less k j ≡ true
    → case_insensitive_less j l ≡ true
    → case_insensitive_less k l ≡ true
unfolding case_insensitive_less
less_trans k j l = transitive (folded k) (folded j) (folded l)

pub less_irrefl : (k : Text) → case_insensitive_less k k ≡ false
unfolding case_insensitive_less
less_irrefl k = irreflexive (folded k)

pub less_asym : (k j : Text) → case_insensitive_less k j ≡ true → case_insensitive_less j k ≡ false
less_asym k j h = elim (Bool-cases (case_insensitive_less j k)) [
  | inl less ↦ absurd (false≢true (sym (less_irrefl k) ∙ less_trans k j k h less))
  | inr o ↦ o
]

-- The same letter but for its case, by the codes of `A` to `Z` and of `a` to `z`.
abbrev pub same_letter : ℕ → ℕ → Bool
same_letter c d =
    if c == d
    then true
    else if leb 65 c && leb c 90 && d == c + 32
    then true
    else leb 65 d && leb d 90 && c == d + 32

-- The same text but for the case of its letters.
abbrev pub same_but_case : Text → Text → Bool
same_but_case [] [] = true
same_but_case [] (d ∷ t) = false
same_but_case (c ∷ s) [] = false
same_but_case (c ∷ s) (d ∷ t) = if same_letter c d then same_but_case s t else false

same_letter_lem : (c d : ℕ) → (to_lower c == to_lower d) ≡ same_letter c d
same_letter_lem c d = ground arith

-- Neither of two texts is less than the other.
abbrev level : Text → Text → Bool
level s t = if text_less s t then false else not (text_less t s)

level-cons : (c d : ℕ) (s t : Text) → level (c ∷ s) (d ∷ t) ≡ (if c == d then level s t else false)
level-cons c d s t = ground arith

level-same_but_case : (s t : Text) → level (map to_lower s) (map to_lower t) ≡ same_but_case s t
level-same_but_case [] [] = refl
level-same_but_case [] (d ∷ t) = refl
level-same_but_case (c ∷ s) [] = refl
level-same_but_case (c ∷ s) (d ∷ t) =
    level-cons (to_lower c) (to_lower d) (map to_lower s) (map to_lower t)
    ∙ ap (λ b. if b then level (map to_lower s) (map to_lower t) else false) (same_letter_lem c d)
    ∙ ap (λ b. if same_letter c d then b else false) (level-same_but_case s t)

-- Two keys are the same for the map when they are the same but for case, as far as their first NUL.
pub same_key-same_but_case : (k j : Text) → same_key k j ≡ same_but_case (c_str k) (c_str j)
unfolding case_insensitive_less
same_key-same_but_case k j = level-same_but_case (c_str k) (c_str j)

-- Keys that are the same compare alike with every key.
pub same_key-less :
    (k j l : Text)
    → case_insensitive_less k j ≡ false
    → case_insensitive_less j k ≡ false
    → (case_insensitive_less k l ≡ case_insensitive_less j l)
      × (case_insensitive_less l k ≡ case_insensitive_less l j)
unfolding case_insensitive_less
same_key-less k j l h o =
    let same = total (folded k) (folded j) h o in
    (ap (λ f. text_less f (folded l)) same, ap (λ f. text_less (folded l) f) same)

pub same_key-folded :
    (k j : Text)
    → case_insensitive_less k j ≡ false
    → case_insensitive_less j k ≡ false
    → folded k ≡ folded j
unfolding case_insensitive_less
same_key-folded k j h o = total (folded k) (folded j) h o
