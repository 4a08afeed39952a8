-- ===== src/ByteArray/Strings/RoundTrip.antt =====
-- Strings, stored and read back.
use fatdog.Base.{
  ℕ, ◌+◌, ◌<◌, ◌%◌, ◌^◌, ◌≡◌, refl, sym, subst, List, ◌++◌, length, arith, length-append,
}
use fatdog.ByteArray.State.{ByteArray, Endian, M, ◌>>=◌, ◌>>◌}
use fatdog.ByteArray.Endian.{layout, length-layout}
use fatdog.ByteArray.Raw.{write, read}
use fatdog.ByteArray.Raw.Valid.{IsValid}
use fatdog.ByteArray.Raw.Ahead.{
  Fits, Encodes, Decodes, Encodes-seq, Decodes-bind, Decodes-Encodes, write-Encodes, read-Decodes,
}
use fatdog.ByteArray.Fixed.{
  write_fuint16, write_fuint32, write_fuint64, read_fuint16, read_fuint32, read_fuint64,
}
use fatdog.ByteArray.Fixed.RoundTrip.{RoundTrips, Fits-le}
use fatdog.ByteArray.Fixed.Codes.{
  write_fuint16-Encodes, write_fuint32-Encodes, write_fuint64-Encodes, read_fuint16-Decodes,
  read_fuint32-Decodes, read_fuint64-Decodes,
}
use fatdog.ByteArray.Varint.{write_uint64, read_uint64}
use native.Mathlib.Nat.{mod-eq_of_lt}
use fatdog.ByteArray.Varint.Encode.{varint, length-varint, write_uint64-Encodes}
use fatdog.ByteArray.Varint.Decode.{read_uint64-Decodes}
use fatdog.ByteArray.Strings.{
  write_string_f16, write_string_f32, write_string_f64, write_string_vint, read_string_f16,
  read_string_f32, read_string_f64, read_string_vint,
}

module _ (en : Endian) (value : List ℕ) (some_byte : 0 < length value) where
  -- A length stored by `w` as `prefix`, and the bytes behind it.
  string_round_trip :
      (w : M (Unit {0})) (r : M ℕ) (prefix : List ℕ)
      → Encodes en w prefix
      → Decodes en r prefix (length value)
      → (self : ByteArray) → IsValid self
      → self.endian ≡ en
      → Fits self (length (prefix ++ value))
      → RoundTrips self (do w; write value) (do len ← r; read len) value (prefix ++ value)
  string_round_trip w r prefix ew dr self valid o fits =
      Decodes-Encodes en (do w; write value) (do len ← r; read len) (prefix ++ value)
        (Encodes-seq en w (write value) prefix value ew (write-Encodes value en))
        (Decodes-bind en r read prefix value dr (read-Decodes value some_byte en)) self valid o fits

-- A length that is stored modulo 2 ^ 16 or more.
wrapped-Encodes :
    (en : Endian) (w : ℕ → M (Unit {0})) (p : ℕ → List ℕ) (m n : ℕ)
    → n < m
    → Encodes en (w n) (p n)
    → Encodes en (w (n % m)) (p n)
wrapped-Encodes en w p m n h e =
    subst (λ k. Encodes en (w k) (p n)) {x = n} {y = n % m} (sym (mod-eq_of_lt h)) e

module _ (host : Endian) (self : ByteArray) (value : List ℕ) (valid : IsValid self)
    (some_byte : 0 < length value) where
  abbrev en : Endian
  en = self.endian

  -- On a valid object with the room for it, a string of at least one and less than 2 ^ 16 bytes
  -- is stored behind its length in two bytes, and read back.
  pub string_f16_round_trip :
      length value < 2 ^ 16
      → Fits self (length value + 2)
      → RoundTrips self
          (write_string_f16 host value)
          (read_string_f16 host)
          value
          (layout en 2 (length value) ++ value)
  unfolding write_string_f16 read_string_f16
  string_f16_round_trip h fits =
      let n = length value in
      string_round_trip en value some_byte (write_fuint16 host (n % 2 ^ 16)) (read_fuint16 host)
        (layout en 2 n)
        (wrapped-Encodes en (write_fuint16 host) (layout en 2) (2 ^ 16) n h
          (write_fuint16-Encodes host en n))
        (read_fuint16-Decodes host en n h) self valid refl
        (Fits-le self (length (layout en 2 n ++ value)) (n + 2)
          (omega (arith, length-append (layout en 2 n) value, length-layout en 2 n)) fits)

  -- On a valid object with the room for it, a string of at least one and less than 2 ^ 32 bytes
  -- is stored behind its length in four bytes, and read back.
  pub string_f32_round_trip :
      length value < 2 ^ 32
      → Fits self (length value + 4)
      → RoundTrips self
          (write_string_f32 host value)
          (read_string_f32 host)
          value
          (layout en 4 (length value) ++ value)
  unfolding write_string_f32 read_string_f32
  string_f32_round_trip h fits =
      let n = length value in
      string_round_trip en value some_byte (write_fuint32 host (n % 2 ^ 32)) (read_fuint32 host)
        (layout en 4 n)
        (wrapped-Encodes en (write_fuint32 host) (layout en 4) (2 ^ 32) n h
          (write_fuint32-Encodes host en n))
        (read_fuint32-Decodes host en n h) self valid refl
        (Fits-le self (length (layout en 4 n ++ value)) (n + 4)
          (omega (arith, length-append (layout en 4 n) value, length-layout en 4 n)) fits)

  -- On a valid object with room for it and ten bytes, a string of at least one byte is stored
  -- behind its length in eight bytes, or behind its length as a varint, and read back.
  pub long_string-RoundTrips :
      Fits self (length value + 10)
      → RoundTrips self
          (write_string_f64 host value)
          (read_string_f64 host)
          value
          (layout en 8 (length value) ++ value)
        × RoundTrips self
            (write_string_vint value)
            (read_string_vint host)
            value
            (varint 9 (length value) ++ value)
  unfolding write_string_f64 read_string_f64 write_string_vint read_string_vint
  long_string-RoundTrips fits =
      let n = length value in
      let small : n < 2 ^ 64 = omega (arith, fits.0) in
      (
        string_round_trip en value some_byte (write_fuint64 host n) (read_fuint64 host)
            (layout en 8 n) (write_fuint64-Encodes host en n) (read_fuint64-Decodes host en n small)
            self valid refl
            (Fits-le self (length (layout en 8 n ++ value)) (n + 10)
              (omega (arith, length-append (layout en 8 n) value, length-layout en 8 n)) fits),
        string_round_trip en value some_byte (write_uint64 n) (read_uint64 host) (varint 9 n)
            (write_uint64-Encodes en n small) (read_uint64-Decodes host en n small) self valid refl
            (Fits-le self (length (varint 9 n ++ value)) (n + 10)
              (omega (arith, length-append (varint 9 n) value, length-varint 9 n)) fits),
      )
