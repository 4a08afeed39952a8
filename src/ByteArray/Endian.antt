-- ===== src/ByteArray/Endian.antt =====
-- fatdog/endian.h: integers as bytes in memory, and the swap of their order.
use fatdog.Base.{
  ℕ, zero, suc, ◌+◌, ◌*◌, ◌/◌, ◌%◌, ◌^◌, ◌<◌, ◌≡◌, refl, sym, ap, subst, ◌∙◌, List, [], ◌∷◌, ◌++◌,
  Bool, true, false, All, length, length-append, if◌then◌else◌, arith,
}
use fatdog.ByteArray.State.{Endian, little, big}
use mathlib.Core.List.{reverse, reverse-reverse, reverse-cons}
use native.Mathlib.Nat.{pow-suc}

abbrev pub IsByte : ℕ → Type 0
IsByte b = b < 256

-- The bytes of an integer of `w` bytes, the lowest first.
unfoldable pub le_bytes : ℕ → ℕ → List ℕ
le_bytes zero v = []
le_bytes (suc w) v = v % 256 ∷ le_bytes w (v / 256)

unfoldable pub of_le_bytes : List ℕ → ℕ
of_le_bytes [] = 0
of_le_bytes (b ∷ bs) = b + 256 * of_le_bytes bs

-- How a machine of a byte order lays an integer of `w` bytes out in memory, and reads it back.
unfoldable pub layout : Endian → ℕ → ℕ → List ℕ
layout little w v = le_bytes w v
layout big w v = reverse (le_bytes w v)

unfoldable pub of_layout : Endian → List ℕ → ℕ
of_layout little bs = of_le_bytes bs
of_layout big bs = of_le_bytes (reverse bs)

-- byteswap(T value): bswap_16, bswap_32 and bswap_64 by the width.
unfoldable pub byteswap : ℕ → ℕ → ℕ
byteswap w v = of_le_bytes (reverse (le_bytes w v))

unfoldable pub same : Endian → Endian → Bool
same little little = true
same little big = false
same big little = false
same big big = true

-- The code of a value that stands in memory in byte order `order` on a machine of order `host`.
unfoldable pub ordered : Endian → Endian → ℕ → ℕ → ℕ
ordered order host w v = if same order host then v else byteswap w v

pub length-le_bytes : (w v : ℕ) → length (le_bytes w v) ≡ w
unfolding le_bytes
length-le_bytes zero v = refl
length-le_bytes (suc w) v = ap suc (length-le_bytes w (v / 256))

pub of_le_bytes-le_bytes : (w v : ℕ) → v < 256 ^ w → of_le_bytes (le_bytes w v) ≡ v
unfolding le_bytes of_le_bytes
of_le_bytes-le_bytes zero v h = omega arith
of_le_bytes-le_bytes (suc w) v h =
    omega (arith, of_le_bytes-le_bytes w (v / 256) (omega (arith, pow-suc 256 w)))

le_bytes-of_le_bytes : (bs : List ℕ) → All IsByte bs → le_bytes (length bs) (of_le_bytes bs) ≡ bs
unfolding le_bytes of_le_bytes
le_bytes-of_le_bytes [] h = refl
le_bytes-of_le_bytes (b ∷ bs) h = ground (arith, le_bytes-of_le_bytes bs h.1)

length-reverse : (bs : List ℕ) → length (reverse bs) ≡ length bs
length-reverse [] = refl
length-reverse (b ∷ bs) =
    ap length (reverse-cons b bs)
    ∙ omega (arith, length-append (reverse bs) (b ∷ []), length-reverse bs)

All-append : (xs ys : List ℕ) → All IsByte xs → All IsByte ys → All IsByte (xs ++ ys)
All-append [] ys hx hy = hy
All-append (x ∷ xs) ys hx hy = (hx.0, All-append xs ys hx.1 hy)

All-reverse : (bs : List ℕ) → All IsByte bs → All IsByte (reverse bs)
All-reverse [] h = tt
All-reverse (b ∷ bs) h =
    subst (All IsByte) (sym (reverse-cons b bs))
      (All-append (reverse bs) (b ∷ []) (All-reverse bs h.1) (h.0, tt))

le_bytes-IsByte : (w v : ℕ) → All IsByte (le_bytes w v)
unfolding le_bytes
le_bytes-IsByte zero v = tt
le_bytes-IsByte (suc w) v = (omega arith, le_bytes-IsByte w (v / 256))

-- Swapping the order of an integer reverses its bytes.
le_bytes-byteswap : (w v : ℕ) → le_bytes w (byteswap w v) ≡ reverse (le_bytes w v)
unfolding byteswap
le_bytes-byteswap w v =
    ap (λ k. le_bytes k (of_le_bytes (reverse (le_bytes w v)))) {x = w}
      {y = length (reverse (le_bytes w v))}
      (sym (length-reverse (le_bytes w v) ∙ length-le_bytes w v))
    ∙ le_bytes-of_le_bytes (reverse (le_bytes w v))
        (All-reverse (le_bytes w v) (le_bytes-IsByte w v))

-- The bytes that a value comes to stand in memory as, swapped where the orders differ, are the ones
-- of the order asked for on any machine.
pub layout-ordered :
    (order host : Endian) (w v : ℕ) → layout host w (ordered order host w v) ≡ layout order w v
unfolding layout ordered same
layout-ordered little little w v = refl
layout-ordered little big w v = ap reverse (le_bytes-byteswap w v) ∙ reverse-reverse (le_bytes w v)
layout-ordered big little w v = le_bytes-byteswap w v
layout-ordered big big w v = refl

byteswap_lem : (w v : ℕ) → byteswap w v ≡ of_le_bytes (reverse (le_bytes w v))
unfolding byteswap
byteswap_lem w v = refl

-- The swap undoes itself.
pub byteswap-byteswap : (w v : ℕ) → v < 256 ^ w → byteswap w (byteswap w v) ≡ v
byteswap-byteswap w v h =
    byteswap_lem w (byteswap w v)
    ∙ ap (λ bs. of_le_bytes (reverse bs)) (le_bytes-byteswap w v)
    ∙ ap of_le_bytes (reverse-reverse (le_bytes w v))
    ∙ of_le_bytes-le_bytes w v h

-- And they are read back as the value, on any machine.
pub ordered-of_layout :
    (order host : Endian) (w v : ℕ)
    → v < 256 ^ w
    → ordered order host w (of_layout host (layout order w v)) ≡ v
unfolding layout of_layout ordered same byteswap
ordered-of_layout little little w v h = of_le_bytes-le_bytes w v h
ordered-of_layout little big w v h = byteswap-byteswap w v h
ordered-of_layout big little w v h = byteswap-byteswap w v h
ordered-of_layout big big w v h =
    ap of_le_bytes (reverse-reverse (le_bytes w v)) ∙ of_le_bytes-le_bytes w v h

pub length-layout : (order : Endian) (w v : ℕ) → length (layout order w v) ≡ w
unfolding layout
length-layout little w v = length-le_bytes w v
length-layout big w v = length-reverse (le_bytes w v) ∙ length-le_bytes w v

-- One byte has no order.
pub layout-byte : (order : Endian) (b : ℕ) → b < 256 → layout order 1 b ≡ b ∷ []
unfolding layout le_bytes
layout-byte little b h = ap (λ (k : ℕ). k ∷ []) (omega arith)
layout-byte big b h =
    ap (λ (k : ℕ). reverse (k ∷ [])) {x = b % 256} {y = b} (omega arith) ∙ reverse-cons b []

pub of_layout-byte : (order : Endian) (b : ℕ) → of_layout order (b ∷ []) ≡ b
unfolding of_layout of_le_bytes
of_layout-byte little b = omega arith
of_layout-byte big b = ap of_le_bytes (reverse-cons b []) ∙ omega arith
