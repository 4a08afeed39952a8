-- ===== src/Base/Overwrite.antt =====
-- A write into a list, in terms of cutting and joining, and reading back what was written.
use Prim.Native.Nat.{ℕ, zero, suc, ◌+◌, ◌-◌, ◌≤◌}
use mathlib.Core.Path.{◌≡◌, refl, sym, ap, ◌∙◌}
use mathlib.Core.List.{List, [], ◌∷◌, ◌++◌}
use native.Mathlib.Omega.{arith}
use fatdog.Base.Lists.{take_all, drop_all, length, take, drop, overwrite, take-nil, drop-nil}

module _ {ℓ} {A : Type ℓ} where
  pub overwrite-nil : (xs : List A) (i : ℕ) → overwrite xs i [] ≡ xs
  overwrite-nil [] i = refl
  overwrite-nil (x ∷ xs) zero = refl
  overwrite-nil (x ∷ xs) (suc i) = ap (◌∷◌ x) (overwrite-nil xs i)

  -- A write that starts in the first part goes on at the front of the second.
  pub overwrite-append :
      (xs ys : List A) (i : ℕ) (zs : List A)
      → i ≤ length xs
      → overwrite (xs ++ ys) i zs
        ≡ overwrite xs i (take (length xs - i) zs) ++ overwrite ys 0 (drop (length xs - i) zs)
  overwrite-append [] ys zero zs h =
      ap (λ k. overwrite ys 0 (drop k zs)) {x = 0} {y = 0 - 0} (omega arith)
  overwrite-append [] ys (suc i) zs h = absurd (omega arith)
  overwrite-append (x ∷ xs) ys (suc i) zs h = ap (◌∷◌ x) (
      rw (overwrite-append xs ys i zs (omega arith))
        (ap (λ k. overwrite xs i (take k zs) ++ overwrite ys 0 (drop k zs)) (omega arith)))
  overwrite-append (x ∷ xs) ys zero [] h = rw (take-nil, drop-nil, overwrite-nil ys 0) refl
  overwrite-append (x ∷ xs) ys zero (z ∷ zs) h =
      ap (◌∷◌ z) (
        rw (overwrite-append xs ys zero zs (omega arith))
          (ap (λ k. overwrite xs 0 (take k zs) ++ overwrite ys 0 (drop k zs)) (omega arith)))
      ∙ ap (λ k. overwrite (x ∷ xs) 0 (take k (z ∷ zs)) ++ overwrite ys 0 (drop k (z ∷ zs)))
          {x = suc (length xs)} {y = suc (length xs) - 0} (omega arith)

  -- A write that ends in the first part leaves the second.
  pub overwrite-append_fits :
      (xs ys : List A) (i : ℕ) (zs : List A)
      → i + length zs ≤ length xs
      → overwrite (xs ++ ys) i zs ≡ overwrite xs i zs ++ ys
  overwrite-append_fits xs ys i zs h =
      overwrite-append xs ys i zs (omega arith)
      ∙ rw (
        take_all (length xs - i) zs (omega arith),
        drop_all (length xs - i) zs (omega arith),
        overwrite-nil ys 0,
      )

  -- Inside the bounds a write replaces a stretch of its own length.
  pub overwrite-splice :
      (xs : List A) (i : ℕ) (zs : List A)
      → i + length zs ≤ length xs
      → overwrite xs i zs ≡ take i xs ++ (zs ++ drop (i + length zs) xs)
  overwrite-splice [] zero [] h = sym (drop-nil (0 + 0))
  overwrite-splice [] zero (z ∷ zs) h = absurd (omega arith)
  overwrite-splice [] (suc i) zs h = absurd (omega arith)
  overwrite-splice (x ∷ xs) zero [] h = ap (λ k. drop k (x ∷ xs)) {x = 0} {y = 0 + 0} (omega arith)
  overwrite-splice (x ∷ xs) zero (z ∷ zs) h = ap (◌∷◌ z) (
      overwrite-splice xs zero zs (omega arith)
      ∙ ap (λ k. zs ++ drop k (x ∷ xs)) {x = suc (0 + length zs)} {y = 0 + suc (length zs)}
          (omega arith))
  overwrite-splice (x ∷ xs) (suc i) zs h = ap (◌∷◌ x) (
      overwrite-splice xs i zs (omega arith)
      ∙ ap (λ k. take i xs ++ (zs ++ drop k (x ∷ xs))) {x = suc (i + length zs)}
          {y = suc i + length zs} (omega arith))

  pub take-length-append : (xs ys : List A) → take (length xs) (xs ++ ys) ≡ xs
  take-length-append [] ys = refl
  take-length-append (x ∷ xs) ys = ap (◌∷◌ x) (take-length-append xs ys)

  pub drop-length-append : (xs ys : List A) → drop (length xs) (xs ++ ys) ≡ ys
  drop-length-append [] ys = refl
  drop-length-append (x ∷ xs) ys = drop-length-append xs ys

  pub drop-drop : (m n : ℕ) (xs : List A) → drop m (drop n xs) ≡ drop (m + n) xs
  drop-drop m zero xs = ap (λ k. drop k xs) {x = m} {y = m + 0} (omega arith)
  drop-drop m (suc n) [] = drop-nil m ∙ sym (drop-nil (m + suc n))
  drop-drop m (suc n) (x ∷ xs) =
      drop-drop m n xs ∙ ap (λ k. drop k (x ∷ xs)) {x = suc (m + n)} {y = m + suc n} (omega arith)

  pub take-take : (m n : ℕ) (xs : List A) → m ≤ n → take m (take n xs) ≡ take m xs
  take-take zero n xs h = refl
  take-take (suc m) zero xs h = absurd (omega arith)
  take-take (suc m) (suc n) [] h = refl
  take-take (suc m) (suc n) (x ∷ xs) h = ap (◌∷◌ x) (take-take m n xs (omega arith))

  -- A stretch of a prefix is a stretch of the whole.
  pub drop-take : (m n : ℕ) (xs : List A) → drop m (take n xs) ≡ take (n - m) (drop m xs)
  drop-take zero n xs = ap (λ k. take k xs) {x = n} {y = n - 0} (omega arith)
  drop-take (suc m) zero xs =
      ap (λ k. take k (drop (suc m) xs)) {x = 0} {y = 0 - suc m} (omega arith)
  drop-take (suc m) (suc n) [] = sym (take-nil (suc n - suc m))
  drop-take (suc m) (suc n) (x ∷ xs) =
      drop-take m n xs ∙ ap (λ k. take k (drop m xs)) {x = n - m} {y = suc n - suc m} (omega arith)
