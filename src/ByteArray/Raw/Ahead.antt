-- ===== src/ByteArray/Raw/Ahead.antt =====
-- Reading and writing in terms of the bytes that stand ahead of the position, which is how the
-- encodings of numbers and strings are stated.
use fatdog.Base.{
  ℕ, ◌+◌, ◌-◌, ◌%◌, ◌^◌, ◌≤◌, ◌<◌, ◌≡◌, refl, sym, ap, ◌∙◌, inl, inr, ◌⊎◌, List, ◌++◌, length, take,
  drop, arith, subst, length-append, length-drop, drop-drop, take-length-append, drop-length-append,
  append_assoc,
}
use fatdog.ByteArray.State.{ByteArray, Endian, M, returns, after, ◌>>=◌, ◌>>◌}
use fatdog.ByteArray.File
use fatdog.ByteArray.File.{File}
use fatdog.ByteArray.Raw.{read, write, set_position}
use fatdog.ByteArray.Raw.Valid.{IsValid, contents, view, length-contents}
use fatdog.ByteArray.Raw.Grow.{IsShort}
use fatdog.ByteArray.Raw.Write.{Wrote, write-Wrote, Wrote-room}
use fatdog.ByteArray.Raw.Read.{read-Moved}
use fatdog.ByteArray.Raw.Seek.{set_position-Sought}

-- The bytes from the position to the end of the file.
unfoldable pub ahead : ByteArray → List ℕ
ahead self = drop (view self).position (view self).bytes

-- The object after `size` bytes were taken, as every reader leaves it.
pub record Taken (self : ByteArray) (size : ℕ) (self' : ByteArray) : Type 0 where
  pub valid : IsValid self'
  pub refined : view self' ≡ File.skip size (view self)
  pub same_base : self'.base_size ≡ self.base_size
  pub same_endian : self'.endian ≡ self.endian
  pub same_capacity : self'.capacity ≡ self.capacity

pub ahead-Taken :
    {self self' : ByteArray} (xs rest : List ℕ)
    → ahead self ≡ xs ++ rest
    → Taken self (length xs) self'
    → ahead self' ≡ rest
unfolding ahead File.skip
ahead-Taken {self} {self'} xs rest e t =
    ap (λ (f : File). drop f.position f.bytes) t.refined
    ∙ ap (λ k. drop k (view self).bytes) {x = (view self).position + length xs}
        {y = length xs + (view self).position} (omega arith)
    ∙ sym (drop-drop (length xs) (view self).position (view self).bytes)
    ∙ ap (drop (length xs)) e
    ∙ drop-length-append xs rest

pub Taken-position : {n : ℕ} {self s : ByteArray} → Taken self n s → s.position ≡ self.position + n
unfolding view File.skip
Taken-position t = ap (λ (f : File). f.position) t.refined

pub Taken-trans :
    {m n : ℕ} {self s t : ByteArray} → Taken self m s → Taken s n t → Taken self (m + n) t
unfolding File.skip
Taken-trans {m} {n} {self} {s} {t} g h = record {
  valid = h.valid;
  refined =
      h.refined
      ∙ ap (File.skip n) g.refined
      ∙ ap (λ k. record (view self) { position = k }) {x = (view self).position + m + n}
          {y = (view self).position + (m + n)} (omega arith);
  same_base = h.same_base ∙ g.same_base;
  same_endian = h.same_endian ∙ g.same_endian;
  same_capacity = h.same_capacity ∙ g.same_capacity;
}

-- In an object of byte order `en`, a reader turns the bytes `xs` ahead of the position into `a`,
-- and takes just these.
abbrev pub Decodes {ℓ} : {A : Type ℓ} → Endian → M A → List ℕ → A → Type ℓ
Decodes en m xs a =
    (self : ByteArray) (rest : List ℕ)
    → IsValid self
    → self.endian ≡ en
    → ahead self ≡ xs ++ rest
    → (self' : ByteArray) × (m self ≡ returns a self') × Taken self (length xs) self'

-- There is room for `n` bytes more with no node linked, or nodes hold one byte each.
abbrev pub Fits : ByteArray → ℕ → Type 0
Fits self n =
    (self.position + n + self.base_size < 2 ^ 64)
    × ((self.position + n ≤ self.capacity) ⊎ (self.base_size ≡ 1))

-- In an object of byte order `en`, a writer that stores the bytes `xs`.
abbrev pub Encodes : Endian → M (Unit {0}) → List ℕ → Type 0
Encodes en w xs =
    (self : ByteArray)
    → IsValid self
    → self.endian ≡ en
    → Fits self (length xs)
    → (self' : ByteArray) × (w self ≡ returns tt self') × Wrote self xs self'

pub ahead-length :
    (self : ByteArray) → IsValid self → length (ahead self) ≡ self.size - self.position
unfolding ahead view
ahead-length self v =
    omega (arith, length-drop self.position (contents self), length-contents self v)

-- `read` takes the bytes that it is asked for, if there is at least one.
pub read-Decodes :
    (xs : List ℕ) → 0 < length xs → (en : Endian) → Decodes en (read (length xs)) xs xs
unfolding ahead view File.peek
read-Decodes xs h en self rest v _ e =
    let len = ap length e ∙ length-append xs rest in
    let (self', got, m) =
      read-Moved self (length xs) v (omega (arith, len, ahead-length self v))
        (omega (arith, len, ahead-length self v, v.in_capacity, h)) in
    (
      self',
      got ∙ ap (λ b. returns b self') (ap (take (length xs)) e ∙ take-length-append xs rest),
      record {
        valid = m.valid;
        refined = m.refined;
        same_base = m.same_base;
        same_endian = m.same_endian;
        same_capacity = m.same_capacity;
      },
    )

-- One reader after another.
pub Decodes-bind {ℓ κ} :
    {A : Type ℓ} {B : Type κ} (en : Endian) (m : M A) (f : A → M B) (xs ys : List ℕ) {a : A} {b : B}
    → Decodes en m xs a
    → Decodes en (f a) ys b
    → Decodes en (m >>= f) (xs ++ ys) b
Decodes-bind en m f xs ys dm df self rest v o e =
    let e' = e ∙ append_assoc xs ys rest in
    let (s, gm, tm) = dm self (ys ++ rest) v o e' in
    let (t, gf, tf) = df s rest tm.valid (tm.same_endian ∙ o) (ahead-Taken xs (ys ++ rest) e' tm) in
    (
      t,
      ap (after f) gm ∙ gf,
      subst (λ k. Taken self k t) (sym (length-append xs ys)) (Taken-trans tm tf),
    )

Fits→not_IsShort : (self : ByteArray) (n : ℕ) → IsValid self → Fits self n → ¬ IsShort self n
Fits→not_IsShort self n v (b, inl room) (lo, hi) = absurd (grind arith)
Fits→not_IsShort self n v (b, inr one) (lo, hi) =
    let none_left : (n - (self.capacity - self.position)) % self.base_size ≡ 0 =
      rw one (omega arith) in
    absurd (omega (arith, lo, none_left))

pub write-Encodes : (xs : List ℕ) (en : Endian) → Encodes en (write xs) xs
write-Encodes xs en self v _ fits =
    write-Wrote self xs v (Fits→not_IsShort self (length xs) v fits) fits.0

Fits-front :
    (self : ByteArray) (xs ys : List ℕ) → Fits self (length (xs ++ ys)) → Fits self (length xs)
Fits-front self xs ys (b, inl room) =
    (omega (arith, length-append xs ys), inl (omega (arith, length-append xs ys)))
Fits-front self xs ys (b, inr one) = (omega (arith, length-append xs ys), inr one)

module _ (self s : ByteArray) (xs ys : List ℕ) where
  moved-position : Wrote self xs s → s.position ≡ self.position + length xs
  unfolding view File.write
  moved-position w = ap (λ (f : File). f.position) w.refined

  Fits-rest : Fits self (length (xs ++ ys)) → Wrote self xs s → Fits s (length ys)
  Fits-rest (b, inl room) w = (
    omega (arith, length-append xs ys, moved-position w, w.same_base),
    inl (omega (arith, length-append xs ys, moved-position w, w.grew)),
  )
  Fits-rest (b, inr one) w =
      (omega (arith, length-append xs ys, moved-position w, w.same_base), inr (w.same_base ∙ one))

  -- The object after two writes is as after one write of all the bytes.
  Wrote-trans :
      (t : ByteArray) → IsValid self → Wrote self xs s → Wrote s ys t → Wrote self (xs ++ ys) t
  unfolding view
  Wrote-trans t v w w' = record {
    valid = w'.valid;
    refined =
        w'.refined
        ∙ ap (File.write ys) w.refined
        ∙ File.write-write xs ys (view self) (omega (arith, length-contents self v, v.in_size));
    same_base = w'.same_base ∙ w.same_base;
    same_endian = w'.same_endian ∙ w.same_endian;
    grew = omega (arith, w.grew, w'.grew);
    new_size = ground (arith, length-append xs ys, moved-position w, w.new_size, w'.new_size);
  }

-- One writer after another.
pub Encodes-seq :
    (en : Endian) (w w' : M (Unit {0})) (xs ys : List ℕ)
    → Encodes en w xs
    → Encodes en w' ys
    → Encodes en (w >> w') (xs ++ ys)
Encodes-seq en w w' xs ys ew ew' self v o fits =
    let (s, wrote, W) = ew self v o (Fits-front self xs ys fits) in
    let (t, wrote', W') = ew' s W.valid (W.same_endian ∙ o) (Fits-rest self s xs ys fits W) in
    (t, ap (after (λ _. w')) wrote ∙ wrote', Wrote-trans self s xs ys t v W W')

written-ahead :
    (xs : List ℕ) (self t : ByteArray)
    → IsValid self
    → view t ≡ File.seek self.position (File.write xs (view self))
    → ahead t ≡ xs ++ drop (self.position + length xs) (view self).bytes
unfolding ahead view
written-ahead xs self t v e =
    ap (λ (f : File). drop f.position f.bytes) e
    ∙ File.ahead-write xs (view self) (omega (arith, length-contents self v, v.in_size))

-- What a writer stored, the reader of the same encoding turns back, from where it was written.
pub Decodes-Encodes {ℓ} :
    {A : Type ℓ} (en : Endian) (w : M (Unit {0})) (m : M A) (xs : List ℕ) {a : A}
    → Encodes en w xs
    → Decodes en m xs a
    → (self : ByteArray) → IsValid self
    → self.endian ≡ en
    → Fits self (length xs)
    → (self' : ByteArray) × ((do w; set_position self.position; m) self ≡ returns a self')
      × IsValid self'
      × (view self' ≡ File.write xs (view self))
Decodes-Encodes en w m xs ew dm self v o fits =
    let p = self.position in
    let (s, wrote, W) = ew self v o fits in
    let room = Wrote-room self xs s W in
    let (t, sought, S) =
      set_position-Sought s p W.valid (omega (arith, room, W.valid.in_capacity)) in
    let file = S.refined (omega (arith, room)) ∙ ap (File.seek p) W.refined in
    let (r, got, T) =
      dm t (drop (p + length xs) (view self).bytes) S.valid (S.same_endian ∙ W.same_endian ∙ o)
        (written-ahead xs self t v file) in
    (
      r,
      ap (after (λ _ k. after (λ _. m) (set_position p k))) wrote
          ∙ ap (after (λ _. m)) sought
          ∙ got,
      T.valid,
      T.refined
          ∙ ap (File.skip (length xs)) file
          ∙ (unfold view File.skip File.seek File.write in refl),
    )
