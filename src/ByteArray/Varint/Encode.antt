-- ===== src/ByteArray/Varint/Encode.antt =====
-- What writeUint32 and writeUint64 store.
use fatdog.Base.{
  ℕ, zero, suc, ◌+◌, ◌/◌, ◌%◌, ◌^◌, ◌≤◌, ◌<◌, ◌≡◌, ap, ◌∙◌, List, [], ◌∷◌, some, length, ltb,
  if◌then◌else◌, bit_and, bit_or, arith,
}
use fatdog.Base.Bits.{bit_and_mask, bit_or_disjoint}
use fatdog.ByteArray.State.{Endian}
use fatdog.ByteArray.Raw.Ahead.{Encodes, write-Encodes}
use fatdog.ByteArray.Varint.{encode_loop, write_slots, write_uint32, write_uint64}
use native.Mathlib.Nat.{pow-suc}

-- The groups of seven bits of `v`, for `v` below 128 ^ (k + 1).
unfoldable pub varint : ℕ → ℕ → List ℕ
varint zero v = v ∷ []
varint (suc k) v =
    let rest = varint k (v / 128) in if ltb v 128 then v ∷ [] else (v % 128 + 128) ∷ rest

inner_group : (v : ℕ) → v < 2 ^ 64 → bit_or (bit_and v 0x7f) 0x80 % 256 ≡ v % 128 + 128
inner_group v h = omega (
  arith,
  ap (λ k. bit_or k 128) (bit_and_mask 64 7 v h),
  bit_or_disjoint 7 (v % 128) 1 (omega arith),
)

encode_loop-varint :
    (k v : ℕ) → v < 128 ^ suc k → v < 2 ^ 64 → encode_loop (suc k) v ≡ some (varint k v)
unfolding encode_loop varint
encode_loop-varint zero v h b = ground arith
encode_loop-varint (suc k) v h b =
    ground (arith, inner_group v b, pow-suc 128 (suc k), encode_loop-varint k (v / 128))

pub length-varint : (k v : ℕ) → (1 ≤ length (varint k v)) × (length (varint k v) ≤ k + 1)
unfolding varint
length-varint zero v = omega arith
length-varint (suc k) v = ground (arith, length-varint k (v / 128))

-- `tmp` has room for every value: five bytes for 32 bits, and ten for 64.
pub encode_loop_fits :
    (v w : ℕ)
    → v < 2 ^ 32
    → w < 2 ^ 64
    → (encode_loop 5 v ≡ some (varint 4 v)) × (encode_loop 10 w ≡ some (varint 9 w))
encode_loop_fits v w hv hw =
    (encode_loop-varint 4 v (omega arith) (omega arith), encode_loop-varint 9 w (omega arith) hw)

pub write_uint32-Encodes :
    (en : Endian) (v : ℕ) → v < 2 ^ 32 → Encodes en (write_uint32 v) (varint 4 v)
unfolding write_uint32
write_uint32-Encodes en v h self valid o fits =
    let (self', wrote, W) = write-Encodes (varint 4 v) en self valid o fits in
    (
      self',
      ap (λ r. write_slots r self) (encode_loop-varint 4 v (omega arith) (omega arith)) ∙ wrote,
      W,
    )

pub write_uint64-Encodes :
    (en : Endian) (v : ℕ) → v < 2 ^ 64 → Encodes en (write_uint64 v) (varint 9 v)
unfolding write_uint64
write_uint64-Encodes en v h self valid o fits =
    let (self', wrote, W) = write-Encodes (varint 9 v) en self valid o fits in
    (self', ap (λ r. write_slots r self) (encode_loop-varint 9 v (omega arith) h) ∙ wrote, W)
