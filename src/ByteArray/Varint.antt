-- ===== src/ByteArray/Varint.antt =====
-- The integers of variable length of fatdog/bytearray.cpp: seven bits a byte, lowest group first,
-- the top bit set on every byte but the last; signed ones by way of the zigzag code.
pub mod Encode
pub mod Decode
pub mod Zigzag
pub mod RoundTrip
use fatdog.Base.{
  ℕ, zero, suc, ◌+◌, ◌-◌, ◌*◌, ◌/◌, ◌%◌, ◌^◌, List, [], ◌∷◌, Option, none, some, ltb, if◌then◌else◌,
  bit_and, bit_or, bit_xor,
}
use fatdog.Base.Signed.{ℤ, pos, negsuc, to_signed}
use fatdog.ByteArray.State.{Endian, Outcome, crash, M, pure, ◌>>=◌}
use fatdog.ByteArray.Raw.{write}
use fatdog.ByteArray.Fixed.{read_fuint8}
use mathlib.Core.Option

-- The loop that fills `tmp`, of which `slots` elements are left; `none` is a store behind its end.
pub encode_loop : ℕ → ℕ → Option (List ℕ)
encode_loop zero value = none
encode_loop (suc slots) value =
    let more = encode_loop slots (value / 2 ^ 7) in
    if ltb value 0x80
    then some (value % 256 ∷ [])
    else Option.map (◌∷◌ (bit_or (bit_and value 0x7f) 0x80 % 256)) more

-- write(tmp, i)
pub write_slots : Option (List ℕ) → M (Unit {0})
write_slots none self = crash
write_slots (some bytes) self = write bytes self

pub write_uint32 : ℕ → M (Unit {0})
unfolding write_slots
write_uint32 value = write_slots (encode_loop 5 value)

pub write_uint64 : ℕ → M (Unit {0})
unfolding write_slots
write_uint64 value = write_slots (encode_loop 10 value)

-- One round of the loop of readUint32 and readUint64, on the byte `b` and the group at bit `i`: a
-- shift of a value of `bits` bits loses what goes beyond them.
pub read_group : ℕ → ℕ → ℕ → (ℕ → M ℕ) → ℕ → M ℕ
read_group bits i result next b =
    if ltb b 0x80
    then pure (bit_or result (b * 2 ^ i % 2 ^ bits))
    else next (bit_or result (bit_and b 0x7f * 2 ^ i % 2 ^ bits))

-- The loop, with `rounds` left.
pub decode_loop : Endian → ℕ → ℕ → ℕ → ℕ → M ℕ
decode_loop host bits zero i result = pure result
decode_loop host bits (suc rounds) i result = do
  b ← read_fuint8 host
  read_group bits i result (decode_loop host bits rounds (i + 7)) b

-- `i` runs through 0, 7, ..., 28: five rounds.
pub read_uint32 : Endian → M ℕ
read_uint32 host = decode_loop host 32 5 0 0

-- `i` runs through 0, 7, ..., 63: ten rounds.
pub read_uint64 : Endian → M ℕ
read_uint64 host = decode_loop host 64 10 0 0

-- EncodeZigzag32 and EncodeZigzag64, in a signed type whose least value is `- half`. `none` is a
-- signed overflow, which C++ leaves undefined: of v * 2, which is computed in that type, and of -v
-- for the least value. (uint32_t)(-v) * 2 - 1 is unsigned, and wraps.
unfoldable pub encode_zigzag : ℕ → ℤ → Option ℕ
encode_zigzag half (pos n) = if ltb (n * 2) half then some (n * 2) else none
encode_zigzag half (negsuc n) =
    if ltb (suc n) half then some ((suc n * 2 + 2 * half - 1) % (2 * half)) else none

unfoldable pub encode_zigzag32 : ℤ → Option ℕ
unfolding encode_zigzag
encode_zigzag32 = encode_zigzag (2 ^ 31)

unfoldable pub encode_zigzag64 : ℤ → Option ℕ
unfolding encode_zigzag
encode_zigzag64 = encode_zigzag (2 ^ 63)

-- (v >> 1) ^ -(v & 1), over unsigned integers of `bits` bits.
pub decode_zigzag : ℕ → ℕ → ℕ
decode_zigzag bits v = bit_xor (v / 2) ((2 ^ bits - bit_and v 1) % 2 ^ bits)

pub decode_zigzag32 : ℕ → ℤ
unfolding decode_zigzag
decode_zigzag32 v = to_signed (2 ^ 31) (decode_zigzag 32 v)

pub decode_zigzag64 : ℕ → ℤ
unfolding decode_zigzag
decode_zigzag64 v = to_signed (2 ^ 63) (decode_zigzag 64 v)

-- The call with the code of a value; undefined where the code is.
unfoldable pub write_code : (ℕ → M (Unit {0})) → Option ℕ → M (Unit {0})
write_code write_uint none self = crash
write_code write_uint (some code) self = write_uint code self

unfoldable pub write_int32 : ℤ → M (Unit {0})
unfolding write_code
write_int32 value = write_code write_uint32 (encode_zigzag32 value)

unfoldable pub write_int64 : ℤ → M (Unit {0})
unfolding write_code
write_int64 value = write_code write_uint64 (encode_zigzag64 value)

pub read_int32 : Endian → M ℤ
read_int32 host = do v ← read_uint32 host; pure (decode_zigzag32 v)

pub read_int64 : Endian → M ℤ
read_int64 host = do v ← read_uint64 host; pure (decode_zigzag64 v)
