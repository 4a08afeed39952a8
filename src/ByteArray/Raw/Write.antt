-- ===== src/ByteArray/Raw/Write.antt =====
-- `write` on a valid object: what it stores, and when it runs past the last node.
use fatdog.Base.{
  ℕ, ◌+◌, ◌-◌, ◌*◌, ◌%◌, ◌^◌, ◌≤◌, ◌<◌, ◌≡◌, refl, sym, ap, ◌∙◌, List, [], ◌∷◌, ◌++◌, Option, none,
  some, length, take, drop, overwrite, ltb, if◌then◌else◌, arith, length-append, length-take,
  length-drop, take-append-drop, overwrite-append_right, take-overwrite, pos→not_zero,
}
use fatdog.Base.Words.{mod_between}
use fatdog.ByteArray.State.{ByteArray, Node, Outcome, returns, crash, after, mem, node_at}
use fatdog.ByteArray.File
use fatdog.ByteArray.File.{File}
use fatdog.ByteArray.Raw.{write_loop, stored, write_here, write, add_capacity}
use fatdog.ByteArray.Raw.Chain.{IsChain, Stored, length-mem, write_loop_fits}
use fatdog.ByteArray.Raw.Valid.{
  IsValid, At, contents, view, base_small, mem-append, IsChain-append, IsChain-take, IsChain-drop,
  node_at-At,
}
use fatdog.ByteArray.Raw.Grow.{IsShort}
use fatdog.ByteArray.Raw.Capacity.{Ready, add_capacity-Ready}

-- The object after a write of `buf`.
pub record Wrote (self : ByteArray) (buf : List ℕ) (self' : ByteArray) : Type 0 where
  pub valid : IsValid self'
  pub refined : view self' ≡ File.write buf (view self)
  pub same_base : self'.base_size ≡ self.base_size
  pub same_endian : self'.endian ≡ self.endian
  pub grew : self.capacity ≤ self'.capacity
  pub new_size : self'.size ≡ (
      if ltb self.size (self.position + length buf) then self.position + length buf else self.size)

pub Wrote-room :
    (self : ByteArray) (buf : List ℕ) (self' : ByteArray)
    → Wrote self buf self'
    → self.position + length buf ≤ self'.size
Wrote-room self buf self' w = ground (arith, w.new_size)

-- The bytes in front of m_cur.
pub length-mem-take :
    (base i : ℕ) (ns : List Node)
    → IsChain base ns
    → i ≤ length ns
    → length (mem (take i ns)) ≡ i * base
length-mem-take base i ns hc h =
    length-mem base (take i ns) (IsChain-take base i ns hc)
    ∙ ap (λ k. k * base) (omega (arith, length-take i ns))

pub mem-split : (i : ℕ) (ns : List Node) → mem (take i ns) ++ mem (drop i ns) ≡ mem ns
mem-split i ns = sym (mem-append (take i ns) (drop i ns)) ∙ ap mem (take-append-drop i ns)

pub rest_room : (base i count : ℕ) → i ≤ count → (count - i) * base + i * base ≡ count * base
rest_room base i count h =
    let whole : count - i + i ≡ count = omega arith in omega (arith, ap (λ (t : ℕ). t * base) whole)

module _ (self : ByteArray) (buf : List ℕ) (v : IsValid self) (i : ℕ) where
  abbrev here : ByteArray → ℕ
  here s = s.position - i * s.base_size

  module _ (at_i : At self.base_size (length self.nodes) self.position (some i)) (chain : List Node)
      (moved : ℕ) (st : Stored self.base_size (drop i self.nodes) (here self) buf chain moved)
      (room : self.position + length buf ≤ self.capacity) where
    stored-nodes : IsChain self.base_size (take i self.nodes ++ chain)
    stored-nodes =
        IsChain-append self.base_size (take i self.nodes) chain
          (IsChain-take self.base_size i self.nodes v.chain) st.nodes

    stored-count : length (take i self.nodes ++ chain) ≡ length self.nodes
    stored-count = omega (
      arith,
      length-append (take i self.nodes) chain,
      length-take i self.nodes,
      length-drop i self.nodes,
      st.count,
      at_i.0,
    )

    stored-mem : mem (take i self.nodes ++ chain) ≡ overwrite (mem self.nodes) self.position buf
    stored-mem =
        mem-append (take i self.nodes) chain
        ∙ ap (◌++◌ (mem (take i self.nodes))) st.bytes
        ∙ ap (λ k. mem (take i self.nodes) ++ overwrite (mem (drop i self.nodes)) k buf)
            {x = here self} {y = self.position - length (mem (take i self.nodes))}
            (omega (arith, front))
        ∙ sym (
            overwrite-append_right (mem (take i self.nodes)) (mem (drop i self.nodes)) self.position
              buf (omega (arith, front, at_i.1)))
        ∙ ap (λ t. overwrite t self.position buf) (mem-split i self.nodes)
      where
        front : length (mem (take i self.nodes)) ≡ i * self.base_size
        front = length-mem-take self.base_size i self.nodes v.chain (omega (arith, at_i.0))

    abbrev end : ℕ
    end = self.position + length buf

    abbrev new_size : ℕ
    new_size = if ltb self.size end then end else self.size

    abbrev result : ByteArray
    result = record self {
      position = end;
      size = new_size;
      nodes = take i self.nodes ++ chain;
      cur = node_at self.nodes (i + moved);
    }

    stored-IsValid : IsValid result
    stored-IsValid = record {
      has_base = v.has_base;
      chain = stored-nodes;
      rooted = omega (arith, stored-count, v.rooted);
      filled = rw stored-count v.filled;
      in_size = ground arith;
      in_capacity = ground (arith, v.in_capacity);
      small = v.small;
      at_cur = rw stored-count (
          node_at-At self.base_size self.nodes (i + moved) end v.has_base
            (omega (arith, st.low, at_i.1)) (omega (arith, st.high, at_i.1))
            (omega (arith, v.filled)));
    }

    stored-refined : view result ≡ File.write buf (view self)
    unfolding view contents File.write
    stored-refined =
        ap (λ (t : List ℕ). record { bytes = t; position = end })
          (ap (take new_size) stored-mem
            ∙ take-overwrite self.size new_size self.position (mem self.nodes) buf v.in_size
                (omega
                  (arith, length-mem self.base_size self.nodes v.chain, v.in_capacity, v.filled))
                (omega (arith, length-mem self.base_size self.nodes v.chain, v.filled))
                (ground arith) (ground arith))

    stored-Wrote : Wrote self buf result
    stored-Wrote = record {
      valid = stored-IsValid;
      refined = stored-refined;
      same_base = refl;
      same_endian = refl;
      grew = omega arith;
      new_size = refl;
    }

-- What the code behind addCapacity comes to, for each m_cur.
abbrev pub write_from : ByteArray → List ℕ → Option ℕ → Outcome (Unit {0})
write_from self buf none = crash
write_from self buf (some i) =
    stored self i
      (write_loop (drop i self.nodes) (self.position % self.base_size) buf self.position)

pub write_here-from :
    (self : ByteArray) (buf : List ℕ)
    → IsValid self
    → write_here buf self ≡ write_from self buf self.cur
unfolding write_here
write_here-from self buf v = rw (pos→not_zero self.base_size v.has_base) (ground arith)

-- With room in the chain every byte is stored.
write_here-At :
    (self : ByteArray) (buf : List ℕ) (cur : Option ℕ)
    → IsValid self
    → 0 < length buf
    → self.position + length buf ≤ self.capacity
    → self.cur ≡ cur
    → At self.base_size (length self.nodes) self.position cur
    → (self' : ByteArray) × (write_here buf self ≡ returns tt self') × Wrote self buf self'
unfolding stored
write_here-At self buf none v hb room e a = absurd (omega (arith, v.filled))
write_here-At self buf (some i) v hb room e a =
    let (chain, moved, run, st) =
      write_loop_fits self.base_size v.has_base (base_small self v) (drop i self.nodes)
        (self.position - i * self.base_size) buf self.position
        (IsChain-drop self.base_size i self.nodes v.chain) (omega (arith, a.1, a.2)) hb
        (omega (
          arith,
          ap (λ (t : ℕ). t * self.base_size) (length-drop i self.nodes),
          rest_room self.base_size i (length self.nodes) (omega (arith, a.0)),
          v.filled,
          a.1,
        ))
        (omega (arith, v.small)) in
    (
      result self buf v i a chain moved st room,
      write_here-from self buf v
          ∙ ap (write_from self buf) e
          ∙ ap (stored self i) (
              ap (λ k. write_loop (drop i self.nodes) k buf self.position)
                (mod_between self.base_size i self.position v.has_base a.1 a.2)
              ∙ run),
      stored-Wrote self buf v i a chain moved st room,
    )

pub write_here-Wrote :
    (self : ByteArray) (buf : List ℕ)
    → IsValid self
    → 0 < length buf
    → self.position + length buf ≤ self.capacity
    → (self' : ByteArray) × (write_here buf self ≡ returns tt self') × Wrote self buf self'
write_here-Wrote self buf v hb room = write_here-At self buf self.cur v hb room refl v.at_cur

Ready-Wrote :
    {self mid self' : ByteArray} {size : ℕ} {buf : List ℕ}
    → Ready self size mid
    → Wrote mid buf self'
    → Wrote self buf self'
Ready-Wrote {self} {mid} {self'} {size} {buf} r w = record {
  valid = w.valid;
  refined = w.refined ∙ ap (File.write buf) r.same_view;
  same_base = w.same_base ∙ r.same_base;
  same_endian = w.same_endian ∙ r.same_endian;
  grew = omega (arith, r.grew, w.grew);
  new_size = w.new_size ∙ rw (r.same_size, r.same_position);
}

-- A write of some bytes: addCapacity first.
pub write-cons :
    (self : ByteArray) (b : ℕ) (bs : List ℕ)
    → write (b ∷ bs) self ≡ after (λ _. write_here (b ∷ bs)) (add_capacity (length (b ∷ bs)) self)
unfolding write
write-cons self b bs = rw (pos→not_zero (length (b ∷ bs)) (omega arith))

Wrote-nil : (self : ByteArray) → IsValid self → Wrote self [] self
unfolding view File.write
Wrote-nil self v = record {
  valid = v;
  refined = λ i. record { bytes = bytes_path i; position = position_path i };
  same_base = refl;
  same_endian = refl;
  grew = omega arith;
  new_size = ground (arith, v.in_size);
}
  where
    position_path : self.position ≡ self.position + 0
    position_path = omega arith

    bytes_path :
        contents self
        ≡ take self.position (contents self) ++ ([] ++ drop (self.position + 0) (contents self))
    bytes_path =
        sym (take-append-drop self.position (contents self))
        ∙ ap (λ k. take self.position (contents self) ++ drop k (contents self)) position_path

-- `write` on a valid object returns, unless its size is one for which addCapacity falls short or
-- the end of the write comes within a node of 2 ^ 64: the object is valid again and stands for the
-- file with the bytes written over or behind its contents at the position.
pub write-Wrote :
    (self : ByteArray) (buf : List ℕ)
    → IsValid self
    → ¬ IsShort self (length buf)
    → self.position + length buf + self.base_size < 2 ^ 64
    → (self' : ByteArray) × (write buf self ≡ returns tt self') × Wrote self buf self'
unfolding write
write-Wrote self [] v ns bound = (self, refl, Wrote-nil self v)
write-Wrote self (b ∷ bs) v ns bound =
    let (mid, grown, ready) = add_capacity-Ready self (length (b ∷ bs)) v ns bound in
    let (self', wrote, w) =
      write_here-Wrote mid (b ∷ bs) ready.valid (omega arith) (rw ready.same_position ready.room) in
    (
      self',
      write-cons self b bs ∙ ap (after (λ _. write_here (b ∷ bs))) grown ∙ wrote,
      Ready-Wrote ready w,
    )
