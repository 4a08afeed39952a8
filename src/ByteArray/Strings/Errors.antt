-- ===== src/ByteArray/Strings/Errors.antt =====
-- Where a string does not come back: its length is lost, or the bytes are not there.
use fatdog.Base.{ℕ, ◌+◌, ◌<◌, ◌^◌, ◌≡◌, refl, ap, subst, ◌∙◌, List, ◌++◌, length, arith}
use fatdog.ByteArray.State.{ByteArray, Endian, after, returns, throws, crash}
use fatdog.ByteArray.Endian.{layout, length-layout}
use fatdog.ByteArray.Raw.{read}
use fatdog.ByteArray.Raw.Valid.{IsValid}
use fatdog.ByteArray.Raw.Read.{read_short, read_at_capacity}
use fatdog.ByteArray.Raw.Ahead.{ahead, ahead-length, ahead-Taken, Taken, Taken-position}
use fatdog.ByteArray.Fixed.{read_fuint16}
use fatdog.ByteArray.Fixed.Codes.{read_fuint16-Decodes}
use fatdog.ByteArray.Strings.{read_string_f16}

module _ (host : Endian) (self : ByteArray) (n : ℕ) (rest : List ℕ) (valid : IsValid self)
    (small : n < 2 ^ 16) (prefix : ahead self ≡ layout self.endian 2 n ++ rest) where
  length_read :
      (s : ByteArray) × (read_fuint16 host self ≡ returns n s) × Taken self 2 s × (ahead s ≡ rest)
  length_read =
      let en = self.endian in
      let (s, got, t) = read_fuint16-Decodes host en n small self rest valid refl prefix in
      (
        s,
        got,
        subst (λ k. Taken self k s) (length-layout en 2 n) t,
        ahead-Taken (layout en 2 n) rest prefix t,
      )

  -- Where fewer bytes stand behind a length of two bytes than it says, the read of a string
  -- throws, and leaves a valid object whose position is behind the length.
  pub read_string_f16_throws :
      length rest < n → (s : ByteArray) × (read_string_f16 host self ≡ throws s) × Taken self 2 s
  unfolding read_string_f16
  read_string_f16_throws short =
      let (s, got, t, left) = length_read in
      (
        s,
        ap (after read) got
            ∙ read_short s n t.valid (omega (arith, ahead-length s t.valid, ap length left)),
        t,
      )

  -- The read of a string whose length, of two bytes, is zero crashes where that length ends at
  -- the capacity of a valid object.
  pub read_string_f16_crash :
      n ≡ 0 → self.position + 2 ≡ self.capacity → read_string_f16 host self ≡ crash
  unfolding read_string_f16
  read_string_f16_crash none_left full =
      let (s, got, t, left) = length_read in
      ap (after read) got
      ∙ read_at_capacity s n t.valid (omega (arith, t.valid.in_size))
          (omega (arith, Taken-position t, t.same_capacity, full))
