-- ===== src/Base/Bits.antt =====
-- The masks, shifts and complements of the program, as arithmetic.
use fatdog.Base.{
  ℕ, zero, suc, ◌+◌, ◌-◌, ◌*◌, ◌/◌, ◌%◌, ◌^◌, ◌≤◌, ◌<◌, min, bit_and, bit_or, bit_xor, ◌≡◌, refl,
  ap, ◌∙◌, arith,
}
use Prim.Native.Nat.{max, digits, bitwise, differ, bit_and-bitwise, bit_or-bitwise, bit_xor-bitwise}
use native.Mathlib.Nat.{pow-suc, one-le-pow, div-add-mod, mod-lt}
use fatdog.Base.Words.{mod_between}

-- A digit-wise operation: `f` on two digits, and `z` once the first number has run out.
module _ (z : ℕ → ℕ) (f : ℕ → ℕ → ℕ) where
  -- As many rounds as the first number serve as well as more.
  same_digits : (j k a b : ℕ) → a ≤ j → a ≤ k → digits z f j a b ≡ digits z f k a b
  same_digits zero zero a b hj hk = refl
  same_digits zero (suc k) zero b hj hk = refl
  same_digits zero (suc k) (suc a) b hj hk = absurd (omega arith)
  same_digits (suc j) zero zero b hj hk = refl
  same_digits (suc j) zero (suc a) b hj hk = absurd (omega arith)
  same_digits (suc j) (suc k) zero b hj hk = refl
  same_digits (suc j) (suc k) (suc a) b hj hk =
      ap (λ d. d * 2 + f (suc a % 2) (b % 2))
        (same_digits j k (suc a / 2) (b / 2) (omega arith) (omega arith))

  -- The lowest digit of the result, and the rest.
  lowest_digit :
      (a b : ℕ)
      → z b ≡ z (b / 2) * 2 + f 0 (b % 2)
      → bitwise z f a b ≡ bitwise z f (a / 2) (b / 2) * 2 + f (a % 2) (b % 2)
  lowest_digit zero b h = h
  lowest_digit (suc a) b h =
      ap (λ d. d * 2 + f (suc a % 2) (b % 2))
        (same_digits a (suc a / 2) (suc a / 2) (b / 2) (omega arith) (omega arith))

and_digit : (a b : ℕ) → bit_and a b ≡ bit_and (a / 2) (b / 2) * 2 + min (a % 2) (b % 2)
and_digit a b = simp bit_and-bitwise (lowest_digit (λ _. 0) min a b (omega arith))

or_digit : (a b : ℕ) → bit_or a b ≡ bit_or (a / 2) (b / 2) * 2 + max (a % 2) (b % 2)
or_digit a b = simp bit_or-bitwise (lowest_digit (λ d. d) max a b (omega arith))

xor_digit : (a b : ℕ) → bit_xor a b ≡ bit_xor (a / 2) (b / 2) * 2 + differ (a % 2) (b % 2)
xor_digit a b =
    let halves : b ≡ b / 2 * 2 + b % 2 = omega arith in
    simp bit_xor-bitwise (lowest_digit (λ d. d) differ a b halves)

differ-zero : (d : ℕ) → differ d 0 ≡ d
differ-zero zero = refl
differ-zero (suc d) = refl

differ-one : (d : ℕ) → d < 2 → differ d 1 ≡ 1 - d
differ-one zero h = refl
differ-one (suc zero) h = refl
differ-one (suc (suc d)) h = absurd (omega arith)

bit_and-zero : (m a : ℕ) → a < 2 ^ m → bit_and a 0 ≡ 0
bit_and-zero zero a h = ap (λ d. bit_and d 0) {x = a} {y = 0} (omega arith)
bit_and-zero (suc m) a h =
    omega (arith, and_digit a 0, bit_and-zero m (a / 2) (omega (arith, pow-suc 2 m)))

zero-bit_and : (b : ℕ) → bit_and 0 b ≡ 0
zero-bit_and b = bit_and-bitwise 0 b

-- The lowest digit of a remainder by an even number, and the rest.
mod_halves : (p a : ℕ) → 0 < p → a % (2 * p) ≡ a / 2 % p * 2 + a % 2
mod_halves p a h =
    let whole = div-add-mod (a / 2) p in
    let below = mod-lt (a / 2) h in
    omega (
      arith,
      whole,
      below,
      mod_between (2 * p) (a / 2 / p) a (omega arith) (omega (arith, whole))
          (omega (arith, whole, below)),
    )

-- A mask of the `k` lowest bits takes the remainder.
pub bit_and_mask : (m k a : ℕ) → a < 2 ^ m → bit_and a (2 ^ k - 1) ≡ a % 2 ^ k
bit_and_mask m zero a h = bit_and-zero m a h ∙ omega arith
bit_and_mask zero (suc k) a h =
    ap (λ d. bit_and d (2 ^ suc k - 1)) {x = a} {y = 0} (omega arith)
    ∙ zero-bit_and (2 ^ suc k - 1)
    ∙ ground (arith, one-le-pow (suc k) 2)
bit_and_mask (suc m) (suc k) a h = ground (
  arith,
  and_digit a (2 ^ suc k - 1),
  pow-suc 2 k,
  pow-suc 2 m,
  one-le-pow k 2,
  mod_halves (2 ^ k) a,
  bit_and_mask m k (a / 2),
)

bit_or-zero : (m a : ℕ) → a < 2 ^ m → bit_or a 0 ≡ a
bit_or-zero zero a h = ground arith
bit_or-zero (suc m) a h =
    omega (arith, or_digit a 0, bit_or-zero m (a / 2) (omega (arith, pow-suc 2 m)))

zero-bit_or : (b : ℕ) → bit_or 0 b ≡ b
zero-bit_or b = bit_or-bitwise 0 b

-- The or of fields that do not overlap is their sum.
pub bit_or_disjoint : (k a b : ℕ) → a < 2 ^ k → bit_or a (b * 2 ^ k) ≡ a + b * 2 ^ k
bit_or_disjoint zero a b h =
    ap (λ d. bit_or d (b * 1)) {x = a} {y = 0} (omega arith) ∙ zero-bit_or (b * 1) ∙ omega arith
bit_or_disjoint (suc k) a b h = ground (
  arith,
  or_digit a (b * 2 ^ suc k),
  pow-suc 2 k,
  ap (λ (t : ℕ). b * t) (pow-suc 2 k),
  bit_or_disjoint k (a / 2) b,
)

pub bit_xor-zero : (k a : ℕ) → a < 2 ^ k → bit_xor a 0 ≡ a
bit_xor-zero zero a h = ap (λ d. bit_xor d 0) {x = a} {y = 0} (omega arith) ∙ omega arith
bit_xor-zero (suc k) a h =
    omega (
      arith,
      xor_digit a 0,
      differ-zero (a % 2),
      bit_xor-zero k (a / 2) (omega (arith, pow-suc 2 k)),
    )

-- The exclusive or with all ones is the complement.
pub bit_xor_ones : (k a : ℕ) → a < 2 ^ k → bit_xor a (2 ^ k - 1) ≡ 2 ^ k - 1 - a
bit_xor_ones zero a h = bit_xor-zero zero a h ∙ omega arith
bit_xor_ones (suc k) a h = ground (
  arith,
  xor_digit a (2 ^ suc k - 1),
  pow-suc 2 k,
  one-le-pow k 2,
  differ-one (a % 2),
  bit_xor_ones k (a / 2),
)
