-- ===== src/ByteArray/Raw/Seek.antt =====
-- setPosition, clear, toString, and reading back what was written.
use fatdog.Base.{
  ℕ, ◌+◌, ◌*◌, ◌^◌, ◌≤◌, ◌<◌, ◌≡◌, refl, ap, ◌∙◌, List, Option, some, length, take, ltb,
  if◌then◌else◌, arith, lt→ltb, le→not_ltb, length-take,
}
use fatdog.ByteArray.State.{ByteArray, returns, throws, after, node_at, ◌>>◌}
use fatdog.ByteArray.File
use fatdog.ByteArray.Raw.{set_position, clear, read, write}
use fatdog.ByteArray.Raw.Chain.{seek_fits}
use fatdog.ByteArray.Raw.Valid.{
  IsValid, contents, view, base_small, node_at-At, IsChain-take, length-contents,
}
use fatdog.ByteArray.Raw.Grow.{IsShort}
use fatdog.ByteArray.Raw.Write.{write-Wrote, Wrote-room}
use fatdog.ByteArray.Raw.Read.{read-Moved}

-- The object after setPosition, up to the end of the file.
pub record Sought (self : ByteArray) (v : ℕ) (self' : ByteArray) : Type 0 where
  pub valid : IsValid self'
  pub at_v : self'.position ≡ v
  pub new_size : self'.size ≡ (if ltb self.size v then v else self.size)
  pub same_capacity : self'.capacity ≡ self.capacity
  pub same_base : self'.base_size ≡ self.base_size
  pub same_endian : self'.endian ≡ self.endian
  pub refined : v ≤ self.size → view self' ≡ File.seek v (view self)

sought-view :
    (self : ByteArray) (p : ℕ) (cur : Option ℕ)
    → p ≤ self.size
    → view
        (record self { position = p; size = if ltb self.size p then p else self.size; cur = cur })
      ≡ File.seek p (view self)
unfolding view contents File.seek
sought-view self p cur h = rw (le→not_ltb self.size p h)

-- setPosition moves a valid object to any position up to its capacity, leaves it valid, and extends
-- the file where the position is beyond its end.
pub set_position-Sought :
    (self : ByteArray) (p : ℕ)
    → IsValid self
    → p ≤ self.capacity
    → (self' : ByteArray) × (set_position p self ≡ returns tt self') × Sought self p self'
unfolding set_position
set_position-Sought self p v h =
    let (k, found, low, high) =
      seek_fits self.base_size v.has_base (base_small self v) self.nodes p v.chain v.rooted
        (omega (arith, v.filled)) in
    (
      record self {
        position = p;
        size = if ltb self.size p then p else self.size;
        cur = node_at self.nodes k;
      },
      rw (le→not_ltb self.capacity p h, found),
      record {
        valid = record {
          has_base = v.has_base;
          chain = v.chain;
          rooted = v.rooted;
          filled = v.filled;
          in_size = ground arith;
          in_capacity = ground (arith, v.in_capacity);
          small = v.small;
          at_cur =
              node_at-At self.base_size self.nodes k p v.has_base low high
                (omega (arith, v.filled));
        };
        at_v = refl;
        new_size = refl;
        same_capacity = refl;
        same_base = refl;
        same_endian = refl;
        refined = λ within. sought-view self p (node_at self.nodes k) within;
      },
    )

pub set_position_throws :
    (self : ByteArray) (p : ℕ) → self.capacity < p → set_position p self ≡ throws self
unfolding set_position
set_position_throws self p h = rw (lt→ltb self.capacity p h)

-- clear leaves of a valid object a valid one of one node that stands for the empty file.
pub clear-empty :
    (self : ByteArray)
    → IsValid self
    → (self' : ByteArray) × (clear self ≡ returns tt self')
      × IsValid self'
      × (view self' ≡ File.empty)
      × (self'.base_size ≡ self.base_size)
      × (self'.capacity ≡ self.base_size)
unfolding clear view contents File.empty
clear-empty self v = (
  record self {
    position = 0;
    size = 0;
    capacity = self.base_size;
    nodes = take 1 self.nodes;
    cur = some 0;
  },
  refl,
  record {
    has_base = v.has_base;
    chain = IsChain-take self.base_size 1 self.nodes v.chain;
    rooted = omega (arith, one);
    filled = omega (arith, ap (λ (t : ℕ). t * self.base_size) one);
    in_size = omega arith;
    in_capacity = omega arith;
    small = base_small self v;
    at_cur = (omega (arith, one), omega arith, omega (arith, v.has_base));
  },
  refl,
  refl,
  refl,
)
  where
    one : length (take 1 self.nodes) ≡ 1
    one = omega (arith, length-take 1 self.nodes, v.rooted)

-- On a valid object, some bytes that are written where addCapacity does not fall short, below 2 ^
-- 64, are read back from the position that they were written at, and the object then is valid and
-- stands for the file as the write left it.
pub read-write :
    (self : ByteArray) (buf : List ℕ)
    → IsValid self
    → 0 < length buf
    → ¬ IsShort self (length buf)
    → self.position + length buf + self.base_size < 2 ^ 64
    → (self' : ByteArray) × ((do write buf; set_position self.position; read (length buf)) self
        ≡ returns buf self')
      × IsValid self'
      × (view self' ≡ File.write buf (view self))
unfolding view
read-write self buf v hb ns bound =
    let p = self.position in
    let n = length buf in
    let (w, wrote, W) = write-Wrote self buf v ns bound in
    let room = Wrote-room self buf w W in
    let (s, sought, S) =
      set_position-Sought w p W.valid (omega (arith, room, W.valid.in_capacity)) in
    let (r, got, R) =
      read-Moved s n S.valid (ground (arith, S.new_size, S.at_v, room))
        (omega (arith, S.at_v, S.same_capacity, room, W.valid.in_capacity, hb)) in
    let file = S.refined (omega (arith, room)) ∙ ap (File.seek p) W.refined in
    (
      r,
      ap (after (λ _ t. after (λ _. read n) (set_position p t))) wrote
          ∙ ap (after (λ _. read n)) sought
          ∙ got
          ∙ ap (λ b. returns b r)
              (ap (File.peek n) file
                ∙ File.peek-write buf (view self)
                    (omega (arith, length-contents self v, v.in_size))),
      R.valid,
      R.refined ∙ ap (File.skip n) file ∙ (unfold File.skip File.seek File.write in refl),
    )
