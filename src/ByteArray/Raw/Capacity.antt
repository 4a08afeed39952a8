-- ===== src/ByteArray/Raw/Capacity.antt =====
-- addCapacity on a valid object.
use fatdog.Base.{
  ℕ, zero, suc, ◌+◌, ◌-◌, ◌*◌, ◌%◌, ◌^◌, ◌≤◌, ◌<◌, ◌≡◌, refl, inl, inr, ◌⊎◌, Option, none, some,
  length, ◌==◌, if◌then◌else◌, arith, le-or-lt, ==_iff, Bool-cases, le→leb, lt→not_leb,
  pos→not_zero,
}
use fatdog.Base.Words.{sub64_lem}
use fatdog.ByteArray.State.{ByteArray, returns, get_capacity}
use fatdog.ByteArray.Raw.{append_nodes, first_new, node_count, add_capacity}
use fatdog.ByteArray.Raw.Chain.{length-mem}
use fatdog.ByteArray.Raw.Valid.{IsValid, At, view, contents}
use fatdog.ByteArray.Raw.Grow.{
  IsShort, Grown, append_nodes-Grown, node_count-enough, node_count-most, node_count-short,
}

-- An object that stands for the same file as `self`, with room for `size` bytes.
pub record Ready (self : ByteArray) (size : ℕ) (self' : ByteArray) : Type 0 where
  pub valid : IsValid self'
  pub same_view : view self' ≡ view self
  pub same_base : self'.base_size ≡ self.base_size
  pub same_position : self'.position ≡ self.position
  pub same_size : self'.size ≡ self.size
  pub same_endian : self'.endian ≡ self.endian
  pub room : self.position + size ≤ self'.capacity
  pub grew : self.capacity ≤ self'.capacity

pub get_capacity_lem :
    (self : ByteArray) → IsValid self → get_capacity self ≡ self.capacity - self.position
unfolding get_capacity
get_capacity_lem self v = sub64_lem self.capacity self.position (omega arith) v.small

Grown-IsValid :
    (count : ℕ) (self self' : ByteArray) (cur : Option ℕ)
    → IsValid self
    → Grown count self self'
    → self.capacity + count * self.base_size < 2 ^ 64
    → At self.base_size (length self.nodes + count) self.position cur
    → IsValid (record self' { cur = cur })
Grown-IsValid count self self' cur v g small at_cur = record {
  has_base = rw g.base v.has_base;
  chain = rw g.base g.chain;
  rooted = omega (arith, g.count_nodes);
  filled = rw (g.capacity, g.base, g.count_nodes) (omega arith);
  in_size = rw (g.position, g.size) v.in_size;
  in_capacity = rw (g.size, g.capacity) (omega arith);
  small = rw g.capacity small;
  at_cur = rw (g.base, g.position, g.count_nodes) at_cur;
}

Grown-view :
    (count : ℕ) (self self' : ByteArray) (cur : Option ℕ)
    → Grown count self self'
    → view (record self' { cur = cur }) ≡ view self
unfolding view contents
Grown-view count self self' cur g = rw (g.position, g.size, g.kept)

Grown-Ready :
    (count size : ℕ) (self self' : ByteArray) (cur : Option ℕ)
    → IsValid self
    → Grown count self self'
    → self.capacity + count * self.base_size < 2 ^ 64
    → At self.base_size (length self.nodes + count) self.position cur
    → self.position + size ≤ self.capacity + count * self.base_size
    → Ready self size (record self' { cur = cur })
Grown-Ready count size self self' cur v g small at_cur room = record {
  valid = Grown-IsValid count self self' cur v g small at_cur;
  same_view = Grown-view count self self' cur g;
  same_base = g.base;
  same_position = g.position;
  same_size = g.size;
  same_endian = g.endian;
  room = rw g.capacity room;
  grew = rw g.capacity (omega arith);
}

-- m_cur stays where it is, if it is a node.
At-grows :
    (base m n position : ℕ) (cur : Option ℕ)
    → position < m * base
    → At base m position cur
    → At base (m + n) position cur
At-grows base m n position none h a = absurd (omega arith)
At-grows base m n position (some i) h a = omega arith

-- How addCapacity goes on where bytes are missing.
add_capacity-grows :
    (self : ByteArray) (size : ℕ)
    → IsValid self
    → self.capacity - self.position < size
    → size < 2 ^ 64
    → let old_cap = self.capacity - self.position in
      let count = node_count (size - old_cap) self.base_size old_cap in
      let self' = append_nodes count self in
      add_capacity size self ≡ (
        if old_cap == 0
        then returns tt (record self' { cur = first_new count self })
        else returns tt self')
unfolding add_capacity
add_capacity-grows self size v h hs = rw (
  get_capacity_lem self v,
  sub64_lem size (self.capacity - self.position) (omega arith) hs,
  pos→not_zero size (omega arith),
  lt→not_leb size (self.capacity - self.position) h,
  pos→not_zero self.base_size v.has_base,
)

add_capacity-keeps :
    (self : ByteArray) (size : ℕ)
    → IsValid self
    → size ≤ self.capacity - self.position
    → add_capacity size self ≡ returns tt self
unfolding add_capacity
add_capacity-keeps self size v h =
    rw (get_capacity_lem self v, le→leb size (self.capacity - self.position) h) (ground arith)

first_new-At :
    (self : ByteArray) (count : ℕ)
    → IsValid self
    → self.position ≡ self.capacity
    → 0 < count
    → At self.base_size (length self.nodes + count) self.position (first_new count self)
unfolding first_new
first_new-At self zero v e h = absurd (omega arith)
first_new-At self (suc count) v e h =
    (omega arith, omega (arith, v.filled), omega (arith, v.filled))

not_short :
    (excess base old : ℕ)
    → ¬ ((0 < excess % base) × (excess % base ≤ old))
    → (excess % base ≡ 0) ⊎ (old < excess % base)
not_short excess base old h = grind arith

-- How many nodes are linked where the free bytes do not hold `size` more.
abbrev growth : ByteArray → ℕ → ℕ
growth self size =
    let old_cap = self.capacity - self.position in
    node_count (size - old_cap) self.base_size old_cap

module _ (self : ByteArray) (size : ℕ) (v : IsValid self)
    (more : self.capacity - self.position < size)
    (bound : self.position + size + self.base_size < 2 ^ 64) where
  growth-small : self.capacity + growth self size * self.base_size < 2 ^ 64
  growth-small =
      let most =
        node_count-most (size - (self.capacity - self.position)) self.base_size
          (self.capacity - self.position) v.has_base in
      omega (arith, most, v.in_size, v.in_capacity)

  growth-Grown : Grown (growth self size) self (append_nodes (growth self size) self)
  growth-Grown =
      append_nodes-Grown (growth self size) self v.chain
        (omega (arith, length-mem self.base_size self.nodes v.chain, v.in_capacity, v.filled))
        growth-small

  pub growth-short :
      IsShort self size → self.capacity + growth self size * self.base_size < self.position + size
  growth-short (lo, hi) =
      let few =
        node_count-short (size - (self.capacity - self.position)) self.base_size
          (self.capacity - self.position) v.has_base lo hi in
      omega (arith, few, v.in_size, v.in_capacity)

  module _ (ns : ¬ IsShort self size) where
    growth-room : self.position + size ≤ self.capacity + growth self size * self.base_size
    growth-room =
        let enough =
          node_count-enough (size - (self.capacity - self.position)) self.base_size
            (self.capacity - self.position) v.has_base (not_short _ _ _ ns) in
        omega (arith, enough, v.in_size, v.in_capacity)

    growth-Ready :
        (self' : ByteArray) × (add_capacity size self ≡ returns tt self') × Ready self size self'
    growth-Ready = elim (Bool-cases (self.capacity - self.position == 0)) [
      | inl full ↦ (
        record (append_nodes (growth self size) self) { cur = first_new (growth self size) self },
        rw (add_capacity-grows self size v more (omega arith)) (rw full),
        Grown-Ready (growth self size) size self _ (first_new (growth self size) self) v
            growth-Grown growth-small
            (first_new-At self (growth self size) v
              (omega (
                arith,
                (==_iff (self.capacity - self.position) 0).0 full,
                v.in_size,
                v.in_capacity,
              ))
              (grind (arith, growth-room)))
            growth-room,
      )
      | inr left ↦ (
        append_nodes (growth self size) self,
        rw (add_capacity-grows self size v more (omega arith)) (rw left),
        Grown-Ready (growth self size) size self _ (append_nodes (growth self size) self).cur v
            growth-Grown growth-small
            (rw growth-Grown.cur (
              At-grows self.base_size (length self.nodes) (growth self size) self.position self.cur
                (ground (arith, v.filled, v.in_size, v.in_capacity)) v.at_cur))
            growth-room,
      )
    ]

missing : (size old base : ℕ) → 0 < (size - old) % base → old < size
missing size old base h = grind arith

-- Below 2 ^ 64, and unless the missing bytes are few enough for addCapacity to fall short,
-- addCapacity leaves a valid object that has room for `size` bytes behind the position and stands
-- for the same file.
pub add_capacity-Ready :
    (self : ByteArray) (size : ℕ)
    → IsValid self
    → ¬ IsShort self size
    → self.position + size + self.base_size < 2 ^ 64
    → (self' : ByteArray) × (add_capacity size self ≡ returns tt self') × Ready self size self'
add_capacity-Ready self size v ns bound = elim (le-or-lt size (self.capacity - self.position)) [
  | inl fits ↦ (
    self,
    add_capacity-keeps self size v fits,
    record {
      valid = v;
      same_view = refl;
      same_base = refl;
      same_position = refl;
      same_size = refl;
      same_endian = refl;
      room = omega (arith, v.in_size, v.in_capacity);
      grew = omega arith;
    },
  )
  | inr more ↦ growth-Ready self size v more bound ns
]

-- Where they do fall short, addCapacity returns with too few nodes.
pub add_capacity-short :
    (self : ByteArray) (size : ℕ)
    → IsValid self
    → IsShort self size
    → self.position + size + self.base_size < 2 ^ 64
    → (self' : ByteArray) × (add_capacity size self ≡ returns tt self')
      × IsValid self'
      × (self'.capacity < self.position + size)
      × (self'.position ≡ self.position)
add_capacity-short self size v (lo, hi) bound = (
  append_nodes (growth self size) self,
  rw (add_capacity-grows self size v more (omega arith))
      (rw (pos→not_zero (self.capacity - self.position) (omega (arith, lo, hi)))),
  Grown-IsValid (growth self size) self (append_nodes (growth self size) self)
      (append_nodes (growth self size) self).cur v g small
      (rw g.cur (
        At-grows self.base_size (length self.nodes) (growth self size) self.position self.cur
          (omega (arith, lo, hi, v.filled)) v.at_cur)),
  rw g.capacity (growth-short self size v more bound (lo, hi)),
  g.position,
)
  where
    more : self.capacity - self.position < size
    more = missing size (self.capacity - self.position) self.base_size lo

    small : self.capacity + growth self size * self.base_size < 2 ^ 64
    small = growth-small self size v more bound

    g : Grown (growth self size) self (append_nodes (growth self size) self)
    g = growth-Grown self size v more bound
