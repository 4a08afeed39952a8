-- ===== src/Base/Slices.antt =====
-- Stretches `take k (drop i xs)` of joined and written lists.
use Prim.Native.Nat.{ℕ, zero, suc, ◌+◌, ◌-◌, ◌≤◌, min}
use mathlib.Core.Path.{◌≡◌, refl, sym, ap, ◌∙◌}
use mathlib.Core.List.{List, [], ◌∷◌, ◌++◌, append-nil}
use native.Mathlib.Omega.{arith}
use fatdog.Base.Lists.{
  length, take, drop, overwrite, length-drop, length-take, take_all, take-append, drop-append,
}
use fatdog.Base.Overwrite.{
  overwrite-splice, take-length-append, drop-length-append, take-take, drop-take,
}

module _ {ℓ} {A : Type ℓ} where
  pub slice-append :
      (xs ys : List A) (i k : ℕ)
      → i ≤ length xs
      → take k (drop i (xs ++ ys)) ≡ take k (drop i xs) ++ take (k - (length xs - i)) ys
  slice-append xs ys i k h =
      ap (take k) (drop-append i xs ys)
      ∙ take-append k (drop i xs) (drop (i - length xs) ys)
      ∙ rw (length-drop i xs) (
          ap (λ j. take k (drop i xs) ++ take (k - (length xs - i)) (drop j ys)) {x = i - length xs}
            {y = 0} (omega arith))

  pub slice-append_left :
      (xs ys : List A) (i k : ℕ)
      → i + k ≤ length xs
      → take k (drop i (xs ++ ys)) ≡ take k (drop i xs)
  slice-append_left xs ys i k h =
      slice-append xs ys i k (omega arith)
      ∙ ap (λ j. take k (drop i xs) ++ take j ys) {x = k - (length xs - i)} {y = 0} (omega arith)
      ∙ append-nil (take k (drop i xs))

  pub slice-append_across :
      (xs ys : List A) (i k : ℕ)
      → i ≤ length xs
      → length xs ≤ i + k
      → take k (drop i (xs ++ ys))
        ≡ take (length xs - i) (drop i xs) ++ take (k - (length xs - i)) ys
  slice-append_across xs ys i k h l =
      slice-append xs ys i k h
      ∙ ap (λ zs. zs ++ take (k - (length xs - i)) ys)
          (take_all k (drop i xs) (omega (arith, length-drop i xs))
            ∙ sym (take_all (length xs - i) (drop i xs) (omega (arith, length-drop i xs))))

  -- Reading where a list was written gives the list back.
  pub slice-overwrite :
      (xs : List A) (i : ℕ) (zs : List A)
      → i + length zs ≤ length xs
      → take (length zs) (drop i (overwrite xs i zs)) ≡ zs
  slice-overwrite xs i zs h =
      ap (λ t. take (length zs) (drop i t)) (overwrite-splice xs i zs h)
      ∙ ap (λ t. take (length zs) t) skip
      ∙ take-length-append zs (drop (i + length zs) xs)
    where
      skip : drop i (take i xs ++ (zs ++ drop (i + length zs) xs)) ≡ zs ++ drop (i + length zs) xs
      skip =
          ap (λ k. drop k (take i xs ++ (zs ++ drop (i + length zs) xs))) {x = i}
            {y = length (take i xs)} (omega (arith, length-take i xs))
          ∙ drop-length-append (take i xs) (zs ++ drop (i + length zs) xs)

  pub overwrite-append_right :
      (xs ys : List A) (i : ℕ) (zs : List A)
      → length xs ≤ i
      → overwrite (xs ++ ys) i zs ≡ xs ++ overwrite ys (i - length xs) zs
  overwrite-append_right [] ys i zs h =
      ap (λ k. overwrite ys k zs) {x = i} {y = i - 0} (omega arith)
  overwrite-append_right (x ∷ xs) ys zero zs h = absurd (omega arith)
  overwrite-append_right (x ∷ xs) ys (suc i) zs h = ap (◌∷◌ x) (
      overwrite-append_right xs ys i zs (omega arith)
      ∙ ap (λ k. xs ++ overwrite ys k zs) {x = i - length xs} {y = suc i - suc (length xs)}
          (omega arith))

  pub drop-append_right :
      (xs ys : List A) (i : ℕ) → length xs ≤ i → drop i (xs ++ ys) ≡ drop (i - length xs) ys
  drop-append_right [] ys i h = ap (λ k. drop k ys) {x = i} {y = i - 0} (omega arith)
  drop-append_right (x ∷ xs) ys zero h = absurd (omega arith)
  drop-append_right (x ∷ xs) ys (suc i) h =
      drop-append_right xs ys i (omega arith)
      ∙ ap (λ k. drop k ys) {x = i - length xs} {y = suc i - suc (length xs)} (omega arith)

  pub take-append_left : (n : ℕ) (xs ys : List A) → n ≤ length xs → take n (xs ++ ys) ≡ take n xs
  take-append_left zero xs ys h = refl
  take-append_left (suc n) [] ys h = absurd (omega arith)
  take-append_left (suc n) (x ∷ xs) ys h = ap (◌∷◌ x) (take-append_left n xs ys (omega arith))

  pub take-append_right :
      (n : ℕ) (xs ys : List A) → length xs ≤ n → take n (xs ++ ys) ≡ xs ++ take (n - length xs) ys
  take-append_right n xs ys h =
      take-append n xs ys ∙ ap (λ t. t ++ take (n - length xs) ys) (take_all n xs h)

  -- A write into the first `size` entries of a list, which it may extend.
  pub take-overwrite :
      (size size' i : ℕ) (xs zs : List A)
      → i ≤ size
      → size ≤ length xs
      → i + length zs ≤ length xs
      → i + length zs ≤ size'
      → size' - (i + length zs) ≡ size - (i + length zs)
      → take size' (overwrite xs i zs)
        ≡ take i (take size xs) ++ (zs ++ drop (i + length zs) (take size xs))
  take-overwrite size size' i xs zs hi hs hz h' e =
      ap (take size') (overwrite-splice xs i zs hz)
      ∙ take-append_right size' (take i xs) (zs ++ drop (i + length zs) xs) (omega (arith, len))
      ∙ ap (◌++◌ (take i xs)) (
          take-append_right (size' - length (take i xs)) zs (drop (i + length zs) xs)
            (omega (arith, len))
          ∙ ap (λ k. zs ++ take k (drop (i + length zs) xs))
              {x = size' - length (take i xs) - length zs} {y = size - (i + length zs)}
              (omega (arith, len))
          ∙ ap (◌++◌ zs) (sym (drop-take (i + length zs) size xs)))
      ∙ ap (λ t. t ++ (zs ++ drop (i + length zs) (take size xs))) (sym (take-take i size xs hi))
    where
      len : length (take i xs) ≡ min i (length xs)
      len = length-take i xs
