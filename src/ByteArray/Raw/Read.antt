-- ===== src/ByteArray/Raw/Read.antt =====
-- `read` on a valid object: what it returns, and where it fails.
use fatdog.Base.{
  ℕ, ◌+◌, ◌-◌, ◌*◌, ◌%◌, ◌≤◌, ◌<◌, ◌≡◌, refl, sym, ap, ◌∙◌, inl, inr, List, Option, none, some,
  Bool, true, false, length, ◌↔◌, take, drop, arith, length-drop, drop-append_right, drop-take,
  take-take, le-or-lt, pos→not_zero, lt→ltb, le→not_ltb,
}
use mathlib.Core.Bool.{false≢true}
use fatdog.Base.Words.{sub64_lem}
use fatdog.Base.Words.{mod_between}
use fatdog.ByteArray.State.{ByteArray, Outcome, returns, throws, crash, mem, node_at, get_read_size}
use fatdog.ByteArray.File
use fatdog.ByteArray.Raw.{read_loop, copied, peeked, read, read_at, to_string}
use fatdog.ByteArray.Raw.Chain.{read_loop_fits}
use fatdog.ByteArray.Raw.Valid.{IsValid, At, contents, view, base_small, IsChain-drop, node_at-At}
use fatdog.ByteArray.Raw.Write.{length-mem-take, mem-split, rest_room}

pub get_read_size_lem :
    (self : ByteArray) → IsValid self → get_read_size self ≡ self.size - self.position
unfolding get_read_size
get_read_size_lem self v =
    sub64_lem self.size self.position v.in_size (omega (arith, v.in_capacity, v.small))

-- The object after a read of `size` bytes.
pub record Moved (self : ByteArray) (size : ℕ) (self' : ByteArray) : Type 0 where
  pub valid : IsValid self'
  pub refined : view self' ≡ File.skip size (view self)
  pub same_base : self'.base_size ≡ self.base_size
  pub same_endian : self'.endian ≡ self.endian
  pub same_capacity : self'.capacity ≡ self.capacity

module _ (self : ByteArray) (size : ℕ) (v : IsValid self)
    (enough : size ≤ self.size - self.position) where
  -- The bytes from the position on, seen from the node that holds it.
  peek-At :
      (i : ℕ)
      → At self.base_size (length self.nodes) self.position (some i)
      → take size (drop (self.position - i * self.base_size) (mem (drop i self.nodes)))
        ≡ File.peek size (view self)
  unfolding view contents File.peek
  peek-At i a =
      ap (λ k. take size (drop k (mem (drop i self.nodes))))
        {x = self.position - i * self.base_size}
        {y = self.position - length (mem (take i self.nodes))} (omega (arith, front))
      ∙ ap (take size) (
          sym (
            drop-append_right (mem (take i self.nodes)) (mem (drop i self.nodes)) self.position
              (omega (arith, front, a.1))))
      ∙ ap (λ t. take size (drop self.position t)) (mem-split i self.nodes)
      ∙ sym (
          ap (take size) (drop-take self.position self.size (mem self.nodes))
          ∙ take-take size (self.size - self.position) (drop self.position (mem self.nodes)) enough)
    where
      front : length (mem (take i self.nodes)) ≡ i * self.base_size
      front = length-mem-take self.base_size i self.nodes v.chain (omega (arith, a.0))

  -- The walk of the loop from m_cur on.
  pub walk :
      (i : ℕ)
      → At self.base_size (length self.nodes) self.position (some i)
      → (moved : ℕ) × (read_loop
            (drop i self.nodes)
            (self.position % self.base_size)
            size
            self.position
          ≡ some (File.peek size (view self), moved, self.position + size))
        × (At self.base_size
            (length self.nodes)
            (self.position + size)
            (node_at self.nodes (i + moved)))
  walk i a =
      let (moved, run, low, high) =
        read_loop_fits self.base_size v.has_base (base_small self v) (drop i self.nodes)
          (self.position - i * self.base_size) size self.position
          (IsChain-drop self.base_size i self.nodes v.chain) (omega (arith, a.1, a.2))
          (omega (
            arith,
            ap (λ (t : ℕ). t * self.base_size) (length-drop i self.nodes),
            rest_room self.base_size i (length self.nodes) (omega (arith, a.0)),
            v.filled,
            v.in_size,
            v.in_capacity,
            a.1,
          ))
          (omega (arith, v.in_size, v.in_capacity, v.small)) in
      (
        moved,
        rw (mod_between self.base_size i self.position v.has_base a.1 a.2, ← peek-At i a) run,
        node_at-At self.base_size self.nodes (i + moved) (self.position + size) v.has_base
            (omega (arith, low, a.1)) (omega (arith, high, a.1))
            (omega (arith, v.filled, v.in_size, v.in_capacity)),
      )

  Moved-Moved :
      (cur : Option ℕ)
      → At self.base_size (length self.nodes) (self.position + size) cur
      → Moved self size (record self { position = self.position + size; cur = cur })
  unfolding view contents File.skip
  Moved-Moved cur a = record {
    valid = record {
      has_base = v.has_base;
      chain = v.chain;
      rooted = v.rooted;
      filled = v.filled;
      in_size = omega (arith, v.in_size);
      in_capacity = v.in_capacity;
      small = v.small;
      at_cur = a;
    };
    refined = refl;
    same_base = refl;
    same_endian = refl;
    same_capacity = refl;
  }

-- What `read` comes to, behind its tests, for each m_cur.
abbrev read_from : ByteArray → ℕ → Option ℕ → Outcome (List ℕ)
read_from self size none = crash
read_from self size (some i) =
    copied self i
      (read_loop (drop i self.nodes) (self.position % self.base_size) size self.position)

read-read_from :
    (self : ByteArray) (size : ℕ)
    → IsValid self
    → size ≤ self.size - self.position
    → read size self ≡ read_from self size self.cur
unfolding read
read-read_from self size v enough =
    rw
      (
        get_read_size_lem self v,
        le→not_ltb (self.size - self.position) size enough,
        pos→not_zero self.base_size v.has_base,
      )
      (ground arith)

module _ (self : ByteArray) (size : ℕ) (v : IsValid self)
    (enough : size ≤ self.size - self.position) where
  read-At :
      (cur : Option ℕ)
      → self.cur ≡ cur
      → self.position < self.capacity
      → At self.base_size (length self.nodes) self.position cur
      → (self' : ByteArray) × (read size self ≡ returns (File.peek size (view self)) self')
        × Moved self size self'
  unfolding copied
  read-At none e h a = absurd (omega (arith, v.filled))
  read-At (some i) e h a =
      let (moved, run, a') = walk self size v enough i a in
      (
        record self { position = self.position + size; cur = node_at self.nodes (i + moved) },
        read-read_from self size v enough ∙ ap (read_from self size) e ∙ ap (copied self i) run,
        Moved-Moved self size v enough (node_at self.nodes (i + moved)) a',
      )

  read-At_end :
      (cur : Option ℕ)
      → self.cur ≡ cur
      → self.position ≡ self.capacity
      → At self.base_size (length self.nodes) self.position cur
      → read size self ≡ crash
  read-At_end none e h a = read-read_from self size v enough ∙ ap (read_from self size) e
  read-At_end (some i) e h a = absurd (grind (arith, v.filled))

  -- A read of no more bytes than there are, on a valid object whose position is below its
  -- capacity, returns the bytes of the file from the position on, and leaves a valid object of
  -- the same bytes whose position has moved on by as many.
  pub read-Moved :
      self.position < self.capacity
      → (self' : ByteArray) × (read size self ≡ returns (File.peek size (view self)) self')
        × Moved self size self'
  read-Moved h = read-At self.cur refl h v.at_cur

  -- A read on a valid object whose position is its capacity crashes, though it can only be one of
  -- no bytes: m_cur is null, and the read follows it.
  pub read_at_capacity : self.position ≡ self.capacity → read size self ≡ crash
  read_at_capacity h = read-At_end self.cur refl h v.at_cur

abbrev is_throw {ℓ} : {A : Type ℓ} → Outcome A → Bool
is_throw (returns a self) = false
is_throw (throws self) = true
is_throw crash = false

-- The object that a call threw for, where it did.
abbrev thrown_for {ℓ} : {A : Type ℓ} → ByteArray → Outcome A → ByteArray
thrown_for d (returns a self) = d
thrown_for d (throws self) = self
thrown_for d crash = d

read_no_throw :
    (self : ByteArray) (size : ℕ)
    → IsValid self
    → size ≤ self.size - self.position
    → is_throw (read size self) ≡ false
read_no_throw self size v enough = elim (le-or-lt self.capacity self.position) [
  | inl out ↦
      ap is_throw
        (read_at_capacity self size v enough (omega (arith, out, v.in_size, v.in_capacity)))
  | inr low ↦ let (self', got, _) = read-Moved self size v enough low in ap is_throw got
]

pub read_short :
    (self : ByteArray) (size : ℕ)
    → IsValid self
    → self.size - self.position < size
    → read size self ≡ throws self
unfolding read
read_short self size v h = rw (get_read_size_lem self v, lt→ltb (self.size - self.position) size h)

-- A read on a valid object throws just where it asks for more bytes than there are behind the
-- position, and then it leaves the object as it was.
pub read_throws :
    (self t : ByteArray) (size : ℕ)
    → IsValid self
    → (read size self ≡ throws t) ↔ ((self.size - self.position < size) × (self ≡ t))
read_throws self t size v = (
  λ e. elim (le-or-lt size (self.size - self.position)) [
    | inl enough ↦ absurd (false≢true (sym (read_no_throw self size v enough) ∙ ap is_throw e))
    | inr short ↦ (short, ap (thrown_for self) (sym (read_short self size v short) ∙ e))
  ],
  λ r. read_short self size v r.0 ∙ ap throws r.1,
)

-- What the `read` that leaves the object comes to, behind its tests, for each m_cur.
abbrev peek_from : ByteArray → ℕ → Option ℕ → Outcome (List ℕ)
peek_from self size none = crash
peek_from self size (some i) =
    peeked self (read_loop (drop i self.nodes) (self.position % self.base_size) size self.position)

read_at-peek_from :
    (self : ByteArray) (size : ℕ)
    → IsValid self
    → size ≤ self.size - self.position
    → read_at size self.position self ≡ peek_from self size self.cur
unfolding read_at
read_at-peek_from self size v enough =
    rw
      (
        get_read_size_lem self v,
        le→not_ltb (self.size - self.position) size enough,
        pos→not_zero self.base_size v.has_base,
      )
      (ground arith)

-- At the object's own position it returns what `read` returns.
read_at-peek :
    (self : ByteArray) (size : ℕ) (cur : Option ℕ)
    → IsValid self
    → size ≤ self.size - self.position
    → self.position < self.capacity
    → self.cur ≡ cur
    → At self.base_size (length self.nodes) self.position cur
    → read_at size self.position self ≡ returns (File.peek size (view self)) self
unfolding peeked
read_at-peek self size none v enough h e a = absurd (omega (arith, v.filled))
read_at-peek self size (some i) v enough h e a =
    let (moved, run, a') = walk self size v enough i a in
    read_at-peek_from self size v enough ∙ ap (peek_from self size) e ∙ ap (peeked self) run

-- toString of a valid object returns the bytes from the position to the end of the file, and leaves
-- the object.
pub to_string_lem :
    (self : ByteArray)
    → IsValid self
    → to_string self ≡ returns (File.peek (self.size - self.position) (view self)) self
unfolding to_string
to_string_lem self v = elim (le-or-lt self.size self.position) [
  | inl done ↦
      let none_left : self.size - self.position ≡ 0 = omega (arith, done) in
      rw (get_read_size_lem self v, none_left) (unfold File.peek in refl)
  | inr more ↦
      rw (get_read_size_lem self v, pos→not_zero (self.size - self.position) (omega (arith, more)))
        (read_at-peek self (self.size - self.position) self.cur v (omega arith)
          (omega (arith, more, v.in_capacity)) refl v.at_cur)
]
