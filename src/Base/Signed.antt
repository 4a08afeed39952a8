-- ===== src/Base/Signed.antt =====
-- Signed integers, and their two's complement patterns. A type of w bits is given by `half`, 2^(w-1).
use fatdog.Base.{
  ℕ, ◌-◌, ◌*◌, ◌%◌, ◌^◌, ◌<◌, ◌≤◌, ◌≡◌, ap, ◌∙◌, Bool, true, false, Bool-cases, inl, inr, ltb, leb,
  lt→ltb, if◌then◌else◌, arith,
}
use native.Mathlib.Nat.{mod-eq_of_lt}

-- `negsuc n` is -(n + 1).
pub data ℤ : Type 0 where
  pos : ℕ → ℤ
  negsuc : ℕ → ℤ

-- The values of the signed type with that half.
abbrev pub InRange : ℕ → ℤ → Type 0
InRange half (pos n) = n < half
InRange half (negsuc n) = n < half

-- The pattern of a value, as an unsigned integer of the same width.
unfoldable pub to_unsigned : ℕ → ℤ → ℕ
to_unsigned half (pos n) = n % (2 * half)
to_unsigned half (negsuc n) = 2 * half - 1 - n % (2 * half)

-- The value that a pattern stands for.
unfoldable pub to_signed : ℕ → ℕ → ℤ
to_signed half u = if ltb u half then pos u else negsuc (2 * half - 1 - u)

pub to_unsigned-lt : (half : ℕ) (z : ℤ) → 0 < half → to_unsigned half z < 2 * half
unfolding to_unsigned
to_unsigned-lt half (pos n) h = omega arith
to_unsigned-lt half (negsuc n) h = omega arith

-- A value in range has a pattern, and is what its pattern stands for.
pub to_signed-to_unsigned :
    (half : ℕ) (z : ℤ) → InRange half z → to_signed half (to_unsigned half z) ≡ z
unfolding to_signed to_unsigned
to_signed-to_unsigned half (pos n) h = ground (arith, small)
  where
    small : n % (2 * half) ≡ n
    small = mod-eq_of_lt (omega arith)
to_signed-to_unsigned half (negsuc n) h = ground (arith, small)
  where
    small : n % (2 * half) ≡ n
    small = mod-eq_of_lt (omega arith)

abbrev pub int_leb : ℤ → ℕ → Bool
int_leb (pos k) n = leb k n
int_leb (negsuc k) n = true

-- (int)size <= n, for a size_t and an int that is not negative: from 2^31 on the cast is negative,
-- as far as 2^32, where it starts again from zero.
unfoldable pub size_le : ℕ → ℕ → Bool
size_le size n = int_leb (to_signed (2 ^ 31) (size % 2 ^ 32)) n

pub size_le_lem : (size n : ℕ) → size < 2 ^ 31 → size_le size n ≡ leb size n
unfolding size_le to_signed
size_le_lem size n h =
    let same : size % 2 ^ 32 ≡ size = mod-eq_of_lt (omega (arith, h)) in
    ap (λ u. int_leb (if ltb u (2 ^ 31) then pos u else negsuc (2 * 2 ^ 31 - 1 - u)) n) same
    ∙ ap (λ b. int_leb (if b then pos size else negsuc (2 * 2 ^ 31 - 1 - size)) n)
        (lt→ltb size (2 ^ 31) h)

-- Where the test fails the index is in range, whatever the size.
pub size_le-lt : (size n : ℕ) → size_le size n ≡ false → n < size
unfolding size_le to_signed
size_le-lt size n h =
    let low : size % 2 ^ 32 ≤ size = omega arith in
    elim (Bool-cases (ltb (size % 2 ^ 32) (2 ^ 31))) [
      | inl small ↦ ground (arith, h, small, low)
      | inr large ↦ ground (arith, h, large)
    ]

abbrev pub int_leb_neg : ℤ → ℕ → Bool
int_leb_neg (pos k) n = false
int_leb_neg (negsuc k) n = leb n k

-- (int)size <= -(n + 1)
unfoldable pub size_le_neg : ℕ → ℕ → Bool
size_le_neg size n = int_leb_neg (to_signed (2 ^ 31) (size % 2 ^ 32)) n
