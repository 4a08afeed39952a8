-- ===== src/ByteArray/Varint/Decode.antt =====
-- What readUint32 and readUint64 return on what the writers store.
use fatdog.Base.{
  ℕ, zero, suc, ◌+◌, ◌*◌, ◌/◌, ◌%◌, ◌^◌, ◌<◌, ◌≡◌, ap, ◌∙◌, inl, inr, List, [], ◌∷◌, ◌++◌, length,
  bit_and, bit_or, arith, le-or-lt, lt→ltb, le→not_ltb, subst,
}
use fatdog.Base.Bits.{bit_and_mask, bit_or_disjoint}
use fatdog.ByteArray.State.{Endian, returns, after}
use fatdog.ByteArray.Raw.Ahead.{Decodes, Taken, ahead-Taken, Taken-trans}
use fatdog.ByteArray.Fixed.RoundTrip.{read_fuint8-Decodes}
use fatdog.ByteArray.Varint.{read_group, decode_loop, read_uint32, read_uint64}
use fatdog.ByteArray.Varint.Encode.{varint}
use native.Mathlib.Nat.{pow-suc, mod-eq_of_lt, div-add-mod}
use native.Mathlib.Numerals.{towards_suc}

two_pow-add_seven : (i : ℕ) → 2 ^ (i + 7) ≡ 128 * 2 ^ i
two_pow-add_seven i = simp towards_suc (omega arith)

-- The lowest group of `v` at bit `i`, and the other groups above it.
split_value : (v i : ℕ) → v * 2 ^ i ≡ v % 128 * 2 ^ i + v / 128 * 2 ^ (i + 7)
split_value v i = omega (
  arith,
  ap (λ (t : ℕ). t * 2 ^ i) (div-add-mod v 128),
  ap (λ (t : ℕ). v / 128 * t) (two_pow-add_seven i),
)

-- A group joins what was read before it.
join_group :
    (bits g i result : ℕ)
    → result < 2 ^ i
    → result + g * 2 ^ i < 2 ^ bits
    → bit_or result (g * 2 ^ i % 2 ^ bits) ≡ result + g * 2 ^ i
join_group bits g i result h fits =
    ap (bit_or result) (mod-eq_of_lt (omega arith)) ∙ bit_or_disjoint i result g h

group_below : (g i result : ℕ) → g < 128 → result < 2 ^ i → result + g * 2 ^ i < 2 ^ (i + 7)
group_below g i result h low = rw (two_pow-add_seven i) (grind arith)

module _ (host en : Endian) (bits : ℕ) where
  -- A byte below 128 ends the loop.
  last_byte :
      (rounds v i result : ℕ)
      → v < 128
      → result < 2 ^ i
      → result + v * 2 ^ i < 2 ^ bits
      → Decodes en (decode_loop host bits (suc rounds) i result) (v ∷ []) (result + v * 2 ^ i)
  unfolding decode_loop read_group
  last_byte rounds v i result h low fits self rest valid o e =
      let (s, got, t) = read_fuint8-Decodes host en v self rest valid o e in
      (
        s,
        ap (after (read_group bits i result (decode_loop host bits rounds (i + 7)))) got
            ∙ rw (lt→ltb v 128 h) (ap (λ k. returns k s) (join_group bits v i result low fits)),
        t,
      )

  -- A byte from 128 on adds a group, and the loop goes on.
  inner_byte :
      (rounds g i result a : ℕ) (ys : List ℕ)
      → g < 128
      → result < 2 ^ i
      → result + g * 2 ^ i < 2 ^ bits
      → Decodes en (decode_loop host bits rounds (i + 7) (result + g * 2 ^ i)) ys a
      → Decodes en (decode_loop host bits (suc rounds) i result) ((g + 128) ∷ ys) a
  unfolding decode_loop read_group
  inner_byte rounds g i result a ys h low fits more self rest valid o e =
      let b = g + 128 in
      let (s, got, t) = read_fuint8-Decodes host en b self (ys ++ rest) valid o e in
      let (s', got', t') =
        more s rest t.valid (t.same_endian ∙ o) (ahead-Taken (b ∷ []) (ys ++ rest) e t) in
      (
        s',
        ap (after (read_group bits i result (decode_loop host bits rounds (i + 7)))) got
            ∙ rw (le→not_ltb (g + 128) 128 (omega arith), masked)
                (ap (λ k. decode_loop host bits rounds (i + 7) k s)
                    (join_group bits g i result low fits)
                  ∙ got'),
        subst (λ k. Taken self k s') {x = 1 + length ys} {y = suc (length ys)} (omega arith)
            (Taken-trans t t'),
      )
    where
      masked : bit_and (g + 128) 0x7f ≡ g
      masked = bit_and_mask 8 7 (g + 128) (omega arith) ∙ omega arith

  decode_loop-Decodes :
      (k v i result : ℕ)
      → v < 128 ^ suc k
      → result < 2 ^ i
      → result + v * 2 ^ i < 2 ^ bits
      → Decodes en (decode_loop host bits (suc k) i result) (varint k v) (result + v * 2 ^ i)
  unfolding varint
  decode_loop-Decodes zero v i result h low fits = last_byte 0 v i result h low fits
  decode_loop-Decodes (suc k) v i result h low fits = elim (le-or-lt 128 v) [
    | inl big ↦ rw (le→not_ltb v 128 big) (
        inner_byte (suc k) (v % 128) i result (result + v * 2 ^ i) (varint k (v / 128))
          (omega arith) low (omega (arith, split_value v i))
          (subst
            (λ r.
              Decodes en (decode_loop host bits (suc k) (i + 7) (result + v % 128 * 2 ^ i))
                (varint k (v / 128)) r)
            (omega (arith, split_value v i))
            (decode_loop-Decodes k (v / 128) (i + 7) (result + v % 128 * 2 ^ i)
              (omega (arith, pow-suc 128 (suc k)))
              (group_below (v % 128) i result (omega arith) low) (omega (arith, split_value v i)))))
    | inr small ↦ rw (lt→ltb v 128 small) (last_byte (suc k) v i result small low fits)
  ]

pub read_uint32-Decodes :
    (host en : Endian) (v : ℕ) → v < 2 ^ 32 → Decodes en (read_uint32 host) (varint 4 v) v
unfolding read_uint32
read_uint32-Decodes host en v h =
    subst (λ r. Decodes en (decode_loop host 32 5 0 0) (varint 4 v) r) (omega arith)
      (decode_loop-Decodes host en 32 4 v 0 0 (omega arith) (omega arith) (omega arith))

pub read_uint64-Decodes :
    (host en : Endian) (v : ℕ) → v < 2 ^ 64 → Decodes en (read_uint64 host) (varint 9 v) v
unfolding read_uint64
read_uint64-Decodes host en v h =
    subst (λ r. Decodes en (decode_loop host 64 10 0 0) (varint 9 v) r) (omega arith)
      (decode_loop-Decodes host en 64 9 v 0 0 (omega arith) (omega arith) (omega arith))
