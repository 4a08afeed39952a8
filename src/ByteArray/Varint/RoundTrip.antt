-- ===== src/ByteArray/Varint/RoundTrip.antt =====
-- The integers of variable length, stored and read back.
use fatdog.Base.{ℕ, ◌≤◌, ◌<◌, ◌^◌, ◌≡◌, refl, ap, sym, subst, ◌∙◌, List, length, arith}
use fatdog.Base.Signed.{ℤ}
use fatdog.ByteArray.State.{ByteArray, Endian, M, pure, after, ◌>>=◌, returns}
use fatdog.ByteArray.Raw.Valid.{IsValid}
use fatdog.ByteArray.Raw.Ahead.{Fits, Decodes, Decodes-Encodes}
use fatdog.ByteArray.Fixed.RoundTrip.{RoundTrips, Fits-le}
use fatdog.ByteArray.Varint.{
  write_uint32, write_uint64, write_int32, write_int64, read_uint32, read_uint64, read_int32,
  read_int64, write_code, decode_zigzag32, decode_zigzag64,
}
use fatdog.ByteArray.Varint.Encode.{
  varint, length-varint, write_uint32-Encodes, write_uint64-Encodes,
}
use fatdog.ByteArray.Varint.Decode.{read_uint32-Decodes, read_uint64-Decodes}
use fatdog.ByteArray.Varint.Zigzag.{IsEncodable, zigzag, zigzag_round_trips}

-- A reader with a function applied to its result.
map-Decodes {ℓ κ} :
    {A : Type ℓ} {B : Type κ} (en : Endian) (m : M A) (f : A → B) (xs : List ℕ) {a : A} {b : B}
    → f a ≡ b
    → Decodes en m xs a
    → Decodes en (m >>= λ v. pure (f v)) xs b
map-Decodes en m f xs e d self rest valid o h =
    let (self', got, t) = d self rest valid o h in
    (self', ap (after (λ v. pure (f v))) got ∙ ap (λ k. returns k self') e, t)

module _ (host : Endian) (self : ByteArray) (valid : IsValid self) where
  uint32_round_trip :
      (v : ℕ)
      → v < 2 ^ 32
      → Fits self 5
      → RoundTrips self (write_uint32 v) (read_uint32 host) v (varint 4 v)
  uint32_round_trip v h fits =
      Decodes-Encodes self.endian (write_uint32 v) (read_uint32 host) (varint 4 v)
        (write_uint32-Encodes self.endian v h) (read_uint32-Decodes host self.endian v h) self valid
        refl (Fits-le self (length (varint 4 v)) 5 (length-varint 4 v).1 fits)

  uint64_round_trip :
      (v : ℕ)
      → v < 2 ^ 64
      → Fits self 10
      → RoundTrips self (write_uint64 v) (read_uint64 host) v (varint 9 v)
  uint64_round_trip v h fits =
      Decodes-Encodes self.endian (write_uint64 v) (read_uint64 host) (varint 9 v)
        (write_uint64-Encodes self.endian v h) (read_uint64-Decodes host self.endian v h) self valid
        refl (Fits-le self (length (varint 9 v)) 10 (length-varint 9 v).1 fits)

  -- On a valid object with room for ten bytes, an unsigned integer of 32 or 64 bits is stored as
  -- its groups of seven bits, in at most five or ten bytes, and read back as itself.
  pub varint-RoundTrips :
      (v w : ℕ)
      → v < 2 ^ 32
      → w < 2 ^ 64
      → Fits self 10
      → RoundTrips self (write_uint32 v) (read_uint32 host) v (varint 4 v)
        × (length (varint 4 v) ≤ 5)
        × RoundTrips self (write_uint64 w) (read_uint64 host) w (varint 9 w)
        × (length (varint 9 w) ≤ 10)
  varint-RoundTrips v w hv hw fits = (
    uint32_round_trip v hv (Fits-le self 5 10 (omega arith) fits),
    (length-varint 4 v).1,
    uint64_round_trip w hw fits,
    (length-varint 9 w).1,
  )

  -- On a valid object with room for ten bytes, a 32-bit integer from -2^31 + 1 to 2^30 - 1, and a
  -- 64-bit one from -2^63 + 1 to 2^62 - 1, is stored as the groups of its zigzag code, and read
  -- back as itself.
  pub signed_varint-RoundTrips :
      (z y : ℤ)
      → IsEncodable (2 ^ 31) z
      → IsEncodable (2 ^ 63) y
      → Fits self 10
      → RoundTrips self (write_int32 z) (read_int32 host) z (varint 4 (zigzag z))
        × RoundTrips self (write_int64 y) (read_int64 host) y (varint 9 (zigzag y))
  unfolding write_int32 write_int64 write_code read_int32 read_int64
  signed_varint-RoundTrips z y hz hy fits =
      let en = self.endian in
      let (code32, small32, back32, code64, small64, back64) = zigzag_round_trips z y hz hy in
      let c = zigzag z in
      let d = zigzag y in
      (
        subst (λ o. RoundTrips self (write_code write_uint32 o) (read_int32 host) z (varint 4 c))
            (sym code32)
            (Decodes-Encodes en (write_uint32 c) (read_int32 host) (varint 4 c)
              (write_uint32-Encodes en c small32)
              (map-Decodes en (read_uint32 host) decode_zigzag32 (varint 4 c) back32
                (read_uint32-Decodes host en c small32))
              self valid refl
              (Fits-le self (length (varint 4 c)) 10 (omega (arith, length-varint 4 c)) fits)),
        subst (λ o. RoundTrips self (write_code write_uint64 o) (read_int64 host) y (varint 9 d))
            (sym code64)
            (Decodes-Encodes en (write_uint64 d) (read_int64 host) (varint 9 d)
              (write_uint64-Encodes en d small64)
              (map-Decodes en (read_uint64 host) decode_zigzag64 (varint 9 d) back64
                (read_uint64-Decodes host en d small64))
              self valid refl (Fits-le self (length (varint 9 d)) 10 (length-varint 9 d).1 fits)),
      )
