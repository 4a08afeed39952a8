-- ===== src/ByteArray/Varint/Zigzag.antt =====
-- The zigzag code: small absolute values become small codes, and every value comes back.
use fatdog.Base.{ℕ, suc, ◌+◌, ◌-◌, ◌*◌, ◌%◌, ◌^◌, ◌<◌, ◌≡◌, refl, ap, ◌∙◌, some, lt→ltb, arith}
use fatdog.Base.Bits.{bit_and_mask, bit_xor-zero, bit_xor_ones}
use fatdog.Base.Signed.{ℤ, pos, negsuc, InRange, to_signed}
use fatdog.ByteArray.Varint.{
  encode_zigzag, decode_zigzag, encode_zigzag32, encode_zigzag64, decode_zigzag32, decode_zigzag64,
}
use native.Mathlib.Nat.{mod-eq_of_lt, mod_self}
use fatdog.Base.Words.{mod_between}

-- The code in plain arithmetic: 0, -1, 1, -2, ... become 0, 1, 2, 3, ...
abbrev pub zigzag : ℤ → ℕ
zigzag (pos n) = 2 * n
zigzag (negsuc n) = 2 * n + 1

-- The values whose code the code can compute: the lower half of those from zero on, and those below
-- zero but the least.
abbrev pub IsEncodable : ℕ → ℤ → Type 0
IsEncodable half (pos n) = n * 2 < half
IsEncodable half (negsuc n) = suc n < half

IsEncodable-InRange : (half : ℕ) (z : ℤ) → IsEncodable half z → InRange half z
IsEncodable-InRange half (pos n) h = omega arith
IsEncodable-InRange half (negsuc n) h = omega arith

encode_zigzag-zigzag :
    (half : ℕ) (z : ℤ) → IsEncodable half z → encode_zigzag half z ≡ some (zigzag z)
unfolding encode_zigzag
encode_zigzag-zigzag half (pos n) h = rw (lt→ltb (n * 2) half h) (ap some (omega arith))
encode_zigzag-zigzag half (negsuc n) h = rw (lt→ltb (suc n) half h) (
    ap some (
      mod_between (2 * half) 1 (suc n * 2 + 2 * half - 1) (omega arith) (omega arith) (omega arith)
      ∙ omega arith))

-- An even code: nothing is flipped. An odd one: all bits are.
decode_even : (bits n : ℕ) → 2 * n < 2 ^ bits → decode_zigzag bits (2 * n) ≡ n
unfolding decode_zigzag
decode_even bits n h =
    ground (arith, bit_and_mask bits 1 (2 * n) h, mod_self (2 ^ bits), bit_xor-zero bits n)

decode_odd : (bits n : ℕ) → 2 * n + 1 < 2 ^ bits → decode_zigzag bits (2 * n + 1) ≡ 2 ^ bits - 1 - n
unfolding decode_zigzag
decode_odd bits n h =
    let all_ones : (2 ^ bits - 1) % 2 ^ bits ≡ 2 ^ bits - 1 = mod-eq_of_lt (omega arith) in
    ground (arith, bit_and_mask bits 1 (2 * n + 1) h, all_ones, bit_xor_ones bits n)

decode-zigzag :
    (bits half : ℕ) (z : ℤ)
    → 2 ^ bits ≡ 2 * half
    → InRange half z
    → to_signed half (decode_zigzag bits (zigzag z)) ≡ z
unfolding to_signed
decode-zigzag bits half (pos n) e h =
    ap (to_signed half) (decode_even bits n (omega arith)) ∙ ground arith
decode-zigzag bits half (negsuc n) e h =
    ap (to_signed half) (decode_odd bits n (omega arith)) ∙ ground arith

zigzag-lt : (half : ℕ) (z : ℤ) → InRange half z → zigzag z < 2 * half
zigzag-lt half (pos n) h = omega arith
zigzag-lt half (negsuc n) h = omega arith

-- A 32-bit integer from -2^31 + 1 to 2^30 - 1 is encoded to its zigzag code, a value of 32 bits,
-- and the code is decoded to the integer; and so is a 64-bit integer from -2^63 + 1 to 2^62 - 1, in
-- 64 bits.
pub zigzag_round_trips :
    (z y : ℤ)
    → IsEncodable (2 ^ 31) z
    → IsEncodable (2 ^ 63) y
    → (encode_zigzag32 z ≡ some (zigzag z))
      × (zigzag z < 2 ^ 32)
      × (decode_zigzag32 (zigzag z) ≡ z)
      × (encode_zigzag64 y ≡ some (zigzag y))
      × (zigzag y < 2 ^ 64)
      × (decode_zigzag64 (zigzag y) ≡ y)
unfolding encode_zigzag32 encode_zigzag64 decode_zigzag32 decode_zigzag64
zigzag_round_trips z y hz hy =
    let rz = IsEncodable-InRange (2 ^ 31) z hz in
    let ry = IsEncodable-InRange (2 ^ 63) y hy in
    (
      encode_zigzag-zigzag (2 ^ 31) z hz,
      zigzag-lt (2 ^ 31) z rz,
      decode-zigzag 32 (2 ^ 31) z refl rz,
      encode_zigzag-zigzag (2 ^ 63) y hy,
      zigzag-lt (2 ^ 63) y ry,
      decode-zigzag 64 (2 ^ 63) y refl ry,
    )
