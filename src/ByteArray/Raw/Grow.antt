-- ===== src/ByteArray/Raw/Grow.antt =====
-- addCapacity: when it links enough nodes, and that it leaves the file alone.
use fatdog.Base.{
  ℕ, zero, suc, ◌+◌, ◌-◌, ◌*◌, ◌%◌, ◌^◌, ◌≤◌, ◌<◌, ◌≡◌, refl, sym, ap, ◌∙◌, subst, ◌⊎◌, [], ◌∷◌,
  ◌++◌, length, take, arith, length-append, length-tabulate, take-append_left,
}
use fatdog.Base.Words.{add64, add64_lem}
use fatdog.ByteArray.State.{ByteArray, new_node, mem}
use fatdog.ByteArray.Raw.{append_nodes, node_count}
use fatdog.ByteArray.Raw.Chain.{IsChain}
use fatdog.ByteArray.Raw.Valid.{mem-append, IsChain-append}
use native.Mathlib.Nat.{div-add-mod}

-- The test of addCapacity that is not met, though bytes are missing: the last, partly filled node
-- is linked only if its bytes outnumber those that are left before the growth.
abbrev pub IsShort : ByteArray → ℕ → Type 0
IsShort self size =
    let old_cap = self.capacity - self.position in
    let rest = (size - old_cap) % self.base_size in (0 < rest) × (rest ≤ old_cap)

-- What `append_nodes` leaves alone, and what it adds.
pub record Grown (count : ℕ) (self self' : ByteArray) : Type 0 where
  pub base : self'.base_size ≡ self.base_size
  pub position : self'.position ≡ self.position
  pub size : self'.size ≡ self.size
  pub endian : self'.endian ≡ self.endian
  pub cur : self'.cur ≡ self.cur
  pub capacity : self'.capacity ≡ self.capacity + count * self.base_size
  pub count_nodes : length self'.nodes ≡ length self.nodes + count
  pub chain : IsChain self.base_size self'.nodes
  pub kept : take self.size (mem self'.nodes) ≡ take self.size (mem self.nodes)

Grown-trans : {m n : ℕ} {self s t : ByteArray} → Grown m self s → Grown n s t → Grown (m + n) self t
Grown-trans {m} {n} {self} {s} {t} g h = record {
  base = h.base ∙ g.base;
  position = h.position ∙ g.position;
  size = h.size ∙ g.size;
  endian = h.endian ∙ g.endian;
  cur = h.cur ∙ g.cur;
  capacity = omega (arith, h.capacity, g.capacity, ap (λ (k : ℕ). n * k) g.base);
  count_nodes = omega (arith, h.count_nodes, g.count_nodes);
  chain = subst (λ b. IsChain b t.nodes) g.base h.chain;
  kept =
      ap (λ k. take k (mem t.nodes)) (sym g.size)
      ∙ h.kept
      ∙ ap (λ k. take k (mem s.nodes)) g.size
      ∙ g.kept;
}

-- One node more.
abbrev linked : ByteArray → ByteArray
linked self = record self {
  nodes = self.nodes ++ new_node self.fresh self.capacity self.base_size ∷ [];
  capacity = add64 self.capacity self.base_size;
}

linked-Grown :
    (self : ByteArray)
    → IsChain self.base_size self.nodes
    → self.size ≤ length (mem self.nodes)
    → self.capacity + self.base_size < 2 ^ 64
    → Grown 1 self (linked self)
unfolding new_node
linked-Grown self hc hs hb = record {
  base = refl;
  position = refl;
  size = refl;
  endian = refl;
  cur = refl;
  capacity = omega (arith, add64_lem self.capacity self.base_size hb);
  count_nodes = length-append self.nodes (new_node self.fresh self.capacity self.base_size ∷ []);
  chain =
      IsChain-append self.base_size self.nodes _ hc
        ((refl, length-tabulate self.base_size (λ i. self.fresh (self.capacity + i))), tt);
  kept =
      ap (take self.size)
        (mem-append self.nodes (new_node self.fresh self.capacity self.base_size ∷ []))
      ∙ take-append_left self.size (mem self.nodes) _ hs;
}

pub append_nodes-Grown :
    (count : ℕ) (self : ByteArray)
    → IsChain self.base_size self.nodes
    → self.size ≤ length (mem self.nodes)
    → self.capacity + count * self.base_size < 2 ^ 64
    → Grown count self (append_nodes count self)
unfolding append_nodes
append_nodes-Grown zero self hc hs hb = ground arith
append_nodes-Grown (suc count) self hc hs hb =
    subst (λ k. Grown k self (append_nodes count (linked self))) {x = 1 + count} (omega arith)
      (Grown-trans one (
        append_nodes-Grown count (linked self) one.chain
          (omega (
            arith,
            ap length
                (mem-append self.nodes (new_node self.fresh self.capacity self.base_size ∷ [])),
            length-append (mem self.nodes)
                (mem (new_node self.fresh self.capacity self.base_size ∷ [])),
          ))
          (omega (arith, one.capacity))))
  where
    one : Grown 1 self (linked self)
    one = linked-Grown self hc hs (omega arith)

-- Enough nodes, but for the case above.
pub node_count-enough :
    (excess base old : ℕ)
    → 0 < base
    → (excess % base ≡ 0) ⊎ (old < excess % base)
    → excess ≤ node_count excess base old * base
unfolding node_count
node_count-enough excess base old pos e = ground (arith, div-add-mod excess base)

pub node_count-most :
    (excess base old : ℕ) → 0 < base → node_count excess base old * base < excess + base
unfolding node_count
node_count-most excess base old pos = ground (arith, div-add-mod excess base)

pub node_count-short :
    (excess base old : ℕ)
    → 0 < base
    → 0 < excess % base
    → excess % base ≤ old
    → node_count excess base old * base < excess
unfolding node_count
node_count-short excess base old pos lo hi = ground (arith, div-add-mod excess base)
