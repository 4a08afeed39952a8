-- ===== src/ByteArray/Fixed/RoundTrip.antt =====
-- What the fixed-width writers store, and that the readers turn it back.
use fatdog.Base.{
  ℕ, ◌*◌, ◌≤◌, ◌<◌, ◌^◌, ◌≡◌, refl, sym, ap, ◌∙◌, List, [], ◌∷◌, length, arith, inl, inr,
}
use fatdog.Base.Signed.{ℤ, InRange, to_unsigned, to_signed, to_unsigned-lt, to_signed-to_unsigned}
use fatdog.ByteArray.State.{ByteArray, Endian, M, pure, after, ◌>>=◌, ◌>>◌, returns}
use fatdog.ByteArray.File
use fatdog.ByteArray.Endian.{
  layout, of_layout, ordered, length-layout, layout-ordered, ordered-of_layout, layout-byte,
  of_layout-byte,
}
use fatdog.ByteArray.Raw.{write, read, set_position}
use fatdog.ByteArray.Raw.Valid.{IsValid, view}
use fatdog.ByteArray.Raw.Ahead.{
  Fits, Encodes, Decodes, read-Decodes, write-Encodes, Decodes-Encodes,
}
use fatdog.ByteArray.Fixed.{
  write_fixed, read_fixed, write_fuint8, write_fint8, write_fuint16, write_fint16, write_fuint32,
  write_fint32, write_fuint64, write_fint64, read_fuint8, read_fint8, read_fuint16, read_fint16,
  read_fuint32, read_fint32, read_fuint64, read_fint64,
}

-- The bytes that come to stand in the file are those of the order of the object.
pub write_fixed-Encodes :
    (host en : Endian) (w v : ℕ) → Encodes en (write_fixed host w v) (layout en w v)
unfolding write_fixed
write_fixed-Encodes host en w v self valid o fits =
    let (self', wrote, W) = write-Encodes (layout en w v) en self valid o fits in
    (
      self',
      ap (λ bs. write bs self)
            (ap (λ e. layout host w (ordered e host w v)) o ∙ layout-ordered en host w v)
          ∙ wrote,
      W,
    )

pub read_fixed-Decodes :
    (host en : Endian) (w v : ℕ)
    → 0 < w
    → v < 256 ^ w
    → Decodes en (read_fixed host w) (layout en w v) v
unfolding read_fixed
read_fixed-Decodes host en w v pos h self rest valid o e =
    let len = length-layout en w v in
    let (self', got, t) =
      read-Decodes (layout en w v) (omega (arith, len)) en self rest valid o e in
    (
      self',
      ap (after (λ bytes s. returns (ordered s.endian host w (of_layout host bytes)) s))
            (ap (λ k. read k self) {x = w} (sym len) ∙ got)
          ∙ ap (λ k. returns k self')
              (ap (λ k. ordered k host w (of_layout host (layout en w v))) (t.same_endian ∙ o)
                ∙ ordered-of_layout en host w v h),
      t,
    )

-- From a position where `xs` fits, `w` stores `xs` there, and `r` reads `a` back from there.
abbrev pub RoundTrips {ℓ} : {A : Type ℓ} → ByteArray → M (Unit {0}) → M A → A → List ℕ → Type ℓ
RoundTrips self w r a xs =
    (self' : ByteArray) × ((do w; set_position self.position; r) self ≡ returns a self')
    × IsValid self'
    × (view self' ≡ File.write xs (view self))

pub write_fuint8-Encodes :
    (host en : Endian) (b : ℕ) → b < 256 → Encodes en (write_fuint8 host b) (b ∷ [])
unfolding write_fuint8
write_fuint8-Encodes host en b h self valid o fits =
    let (self', wrote, W) = write-Encodes (b ∷ []) en self valid o fits in
    (self', ap (λ bs. write bs self) (layout-byte host b h) ∙ wrote, W)

pub read_fuint8-Decodes : (host en : Endian) (b : ℕ) → Decodes en (read_fuint8 host) (b ∷ []) b
unfolding read_fuint8
read_fuint8-Decodes host en b self rest valid o e =
    let (self', got, t) = read-Decodes (b ∷ []) (omega arith) en self rest valid o e in
    (
      self',
      ap (after (λ bytes. pure (of_layout host bytes))) got
          ∙ ap (λ k. returns k self') (of_layout-byte host b),
      t,
    )

signed-Decodes :
    (en : Endian) (half : ℕ) (m : M ℕ) (xs : List ℕ) (z : ℤ)
    → InRange half z
    → Decodes en m xs (to_unsigned half z)
    → Decodes en (m >>= λ v. pure (to_signed half v)) xs z
signed-Decodes en half m xs z h d self rest valid o e =
    let (self', got, t) = d self rest valid o e in
    (
      self',
      ap (after (λ v. pure (to_signed half v))) got
          ∙ ap (λ k. returns k self') (to_signed-to_unsigned half z h),
      t,
    )

write_fint8-Encodes :
    (host en : Endian) (z : ℤ) → Encodes en (write_fint8 host z) (to_unsigned (2 ^ 7) z ∷ [])
unfolding write_fint8
write_fint8-Encodes host en z =
    write_fuint8-Encodes host en (to_unsigned (2 ^ 7) z)
      (omega (arith, to_unsigned-lt (2 ^ 7) z (omega arith)))

read_fint8-Decodes :
    (host en : Endian) (z : ℤ)
    → InRange (2 ^ 7) z
    → Decodes en (read_fint8 host) (to_unsigned (2 ^ 7) z ∷ []) z
unfolding read_fint8
read_fint8-Decodes host en z h self rest valid o e =
    let b = to_unsigned (2 ^ 7) z in
    let (self', got, t) = read-Decodes (b ∷ []) (omega arith) en self rest valid o e in
    (
      self',
      ap (after (λ bytes. pure (to_signed (2 ^ 7) (of_layout host bytes)))) got
          ∙ ap (λ k. returns k self')
              (ap (to_signed (2 ^ 7)) (of_layout-byte host b) ∙ to_signed-to_unsigned (2 ^ 7) z h),
      t,
    )

pub Fits-le : (self : ByteArray) (m n : ℕ) → m ≤ n → Fits self n → Fits self m
Fits-le self m n h (b, inl room) = (omega arith, inl (omega arith))
Fits-le self m n h (b, inr one) = (omega arith, inr one)

module _ (host : Endian) (self : ByteArray) (valid : IsValid self) (fits : Fits self 8) where
  abbrev en : Endian
  en = self.endian

  module _ {A : Type 0} (w : M (Unit {0})) (r : M A) (xs : List ℕ) (a : A) where
    round_trip : length xs ≤ 8 → Encodes en w xs → Decodes en r xs a → RoundTrips self w r a xs
    round_trip small ew dr =
        Decodes-Encodes en w r xs ew dr self valid refl (Fits-le self (length xs) 8 small fits)

  fixed_round_trip :
      (w v : ℕ)
      → 0 < w
      → w ≤ 8
      → v < 256 ^ w
      → RoundTrips self (write_fixed host w v) (read_fixed host w) v (layout en w v)
  fixed_round_trip w v pos small h =
      round_trip (write_fixed host w v) (read_fixed host w) (layout en w v) v
        (omega (arith, length-layout en w v)) (write_fixed-Encodes host en w v)
        (read_fixed-Decodes host en w v pos h)

  signed_round_trip :
      (half w : ℕ) (z : ℤ)
      → 0 < w
      → w ≤ 8
      → 0 < half
      → 2 * half ≤ 256 ^ w
      → InRange half z
      → let u = to_unsigned half z in
        RoundTrips self
          (write_fixed host w u)
          (read_fixed host w >>= λ v. pure (to_signed half v))
          z
          (layout en w u)
  signed_round_trip half w z pos small ph fit h =
      let u = to_unsigned half z in
      round_trip (write_fixed host w u) (read_fixed host w >>= λ v. pure (to_signed half v))
        (layout en w u) z (omega (arith, length-layout en w u)) (write_fixed-Encodes host en w u)
        (signed-Decodes en half (read_fixed host w) (layout en w u) z h
          (read_fixed-Decodes host en w u pos (omega (arith, fit, to_unsigned-lt half z ph))))

  -- On any machine, in a valid object with room for eight bytes, an unsigned integer of 8, 16, 32
  -- or 64 bits is stored as its bytes in the order of the object, and read back as itself.
  pub unsigned-RoundTrips :
      (a b c d : ℕ)
      → a < 2 ^ 8
      → b < 2 ^ 16
      → c < 2 ^ 32
      → d < 2 ^ 64
      → RoundTrips self (write_fuint8 host a) (read_fuint8 host) a (a ∷ [])
        × RoundTrips self (write_fuint16 host b) (read_fuint16 host) b (layout en 2 b)
        × RoundTrips self (write_fuint32 host c) (read_fuint32 host) c (layout en 4 c)
        × RoundTrips self (write_fuint64 host d) (read_fuint64 host) d (layout en 8 d)
  unfolding write_fuint16 write_fuint32 write_fuint64 read_fuint16 read_fuint32 read_fuint64
  unsigned-RoundTrips a b c d ha hb hc hd = (
    round_trip (write_fuint8 host a) (read_fuint8 host) (a ∷ []) a (omega arith)
        (write_fuint8-Encodes host en a ha) (read_fuint8-Decodes host en a),
    fixed_round_trip 2 b (omega arith) (omega arith) hb,
    fixed_round_trip 4 c (omega arith) (omega arith) hc,
    fixed_round_trip 8 d (omega arith) (omega arith) hd,
  )

  -- On any machine, in a valid object with room for eight bytes, a signed integer of 8, 16, 32 or
  -- 64 bits is stored as the bytes of its two's complement pattern in the order of the object,
  -- and read back as itself.
  pub signed-RoundTrips :
      (a b c d : ℤ)
      → InRange (2 ^ 7) a
      → InRange (2 ^ 15) b
      → InRange (2 ^ 31) c
      → InRange (2 ^ 63) d
      → RoundTrips self (write_fint8 host a) (read_fint8 host) a (to_unsigned (2 ^ 7) a ∷ [])
        × RoundTrips self
            (write_fint16 host b)
            (read_fint16 host)
            b
            (layout en 2 (to_unsigned (2 ^ 15) b))
        × RoundTrips self
            (write_fint32 host c)
            (read_fint32 host)
            c
            (layout en 4 (to_unsigned (2 ^ 31) c))
        × RoundTrips self
            (write_fint64 host d)
            (read_fint64 host)
            d
            (layout en 8 (to_unsigned (2 ^ 63) d))
  unfolding write_fint16 write_fint32 write_fint64 read_fint16 read_fint32 read_fint64
  signed-RoundTrips a b c d ha hb hc hd = (
    round_trip (write_fint8 host a) (read_fint8 host) (to_unsigned (2 ^ 7) a ∷ []) a (omega arith)
        (write_fint8-Encodes host en a) (read_fint8-Decodes host en a ha),
    signed_round_trip (2 ^ 15) 2 b (omega arith) (omega arith) (omega arith) (omega arith) hb,
    signed_round_trip (2 ^ 31) 4 c (omega arith) (omega arith) (omega arith) (omega arith) hc,
    signed_round_trip (2 ^ 63) 8 d (omega arith) (omega arith) (omega arith) (omega arith) hd,
  )
