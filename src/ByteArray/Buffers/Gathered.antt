-- ===== src/ByteArray/Buffers/Gathered.antt =====
-- getReadBuffers on a valid object: its buffers are the bytes behind the position.
use fatdog.Base.{
  ℕ, ◌-◌, ◌%◌, ◌≤◌, ◌<◌, ◌≡◌, refl, sym, ap, ◌∙◌, subst, List, [], Option, none, some, drop, length,
  ltb, ◌==◌, if◌then◌else◌, arith, min, inl, inr, le-or-lt, pos→not_zero,
}
use fatdog.ByteArray.State.{Node, ByteArray, Outcome, returns, crash, get_read_size}
use fatdog.ByteArray.File
use fatdog.ByteArray.Raw.Valid.{IsValid, At, view, base_small, IsChain-drop}
use fatdog.ByteArray.Raw.Read.{walk, get_read_size_lem}
use fatdog.ByteArray.Buffers.{
  Iovec, buffers_loop, buffered, buffers_from, get_read_buffers, gather, buffers_loop-read_loop,
  AreInside, total, Lie, buffers_loop-Lie,
}
use mathlib.Core.Option
use mathlib.Core.Option.{some-ne-none, some-injective}

some_of :
    (all : List Node) (o : Option (List Iovec)) (bytes : List ℕ)
    → Option.map (gather all) o ≡ some bytes
    → (vs : List Iovec) × (o ≡ some vs) × (gather all vs ≡ bytes)
some_of all none bytes e = absurd (some-ne-none bytes (sym e))
some_of all (some vs) bytes e = (vs, refl, some-injective (gather all vs) bytes e)

module _ (self : ByteArray) (v : IsValid self) where
  -- From m_cur on.
  from_cur :
      (size : ℕ) (cur : Option ℕ)
      → 0 < size
      → size ≤ self.size - self.position
      → At self.base_size (length self.nodes) self.position cur
      → (vs : List Iovec) × (buffers_from self size cur ≡ returns (vs, size) self)
        × (gather self.nodes vs ≡ File.peek size (view self))
        × AreInside self.nodes vs
        × (total vs ≡ size)
  unfolding buffers_from
  from_cur size none pos enough a = absurd (omega (arith, v.filled, v.in_capacity))
  from_cur size (some i) pos enough a =
      let (moved, run, a') = walk self size v enough i a in
      let (vs, found, bytes) =
        some_of self.nodes
          (buffers_loop (drop i self.nodes) i (self.position % self.base_size) size)
          (File.peek size (view self))
          (buffers_loop-read_loop self.nodes (drop i self.nodes) i (self.position % self.base_size)
              size self.position refl
            ∙ ap (Option.map (λ r. r.0)) run) in
      let lie =
        buffers_loop-Lie self.base_size self.nodes (drop i self.nodes) i
          (self.position % self.base_size) size (base_small self v) refl
          (IsChain-drop self.base_size i self.nodes v.chain) in_first in
      let (inside, sum) = subst (Lie self.nodes size) found lie in
      (vs, ap (buffered self size) found, bytes, inside, sum)
    where
      in_first : self.position % self.base_size ≤ self.base_size
      in_first = omega (arith, v.has_base)

  sized :
      (len : ℕ)
      → (if ltb (get_read_size self) len then get_read_size self else len)
        ≡ min len (self.size - self.position)
  sized len = rw (get_read_size_lem self v) (ground arith)

  -- getReadBuffers, once the length is cut to what there is.
  cut : ℕ → Outcome (List Iovec × ℕ)
  unfolding buffers_from
  cut size =
      if size == 0
      then returns ([], 0) self
      else if self.base_size == 0
      then crash
      else buffers_from self size self.cur

  cut_lem :
      (size : ℕ)
      → size ≤ self.size - self.position
      → (vs : List Iovec) × (cut size ≡ returns (vs, size) self)
        × (gather self.nodes vs ≡ File.peek size (view self))
        × AreInside self.nodes vs
        × (total vs ≡ size)
  unfolding cut
  cut_lem size enough = elim (le-or-lt size 0) [
    | inl nothing ↦
        let zero_size : size ≡ 0 = omega (arith, nothing) in
        ([], rw zero_size refl, rw zero_size (unfold File.peek in refl), tt, sym zero_size)
    | inr more ↦
        let (vs, found, bytes, inside, sum) = from_cur size self.cur more enough v.at_cur in
        (
          vs,
          rw (pos→not_zero size more, pos→not_zero self.base_size v.has_base) found,
          bytes,
          inside,
          sum,
        )
  ]

  -- getReadBuffers(buffers, len) on a valid object returns the smaller of `len` and the number of
  -- bytes behind the position, and buffers that are as many bytes of the file from the position
  -- on: each buffer lies in the memory of its node, and their lengths sum to that number. The
  -- object is left.
  pub get_read_buffers_lem :
      (len : ℕ)
      → (vs : List Iovec) × (get_read_buffers len self
          ≡ returns (vs, min len (self.size - self.position)) self)
        × (gather self.nodes vs ≡ File.peek (min len (self.size - self.position)) (view self))
        × AreInside self.nodes vs
        × (total vs ≡ min len (self.size - self.position))
  unfolding get_read_buffers cut
  get_read_buffers_lem len =
      let (vs, found, bytes, inside, sum) =
        cut_lem (min len (self.size - self.position)) (omega arith) in
      (vs, ap cut (sized len) ∙ found, bytes, inside, sum)
