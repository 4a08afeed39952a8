-- ===== src/ByteArray/Raw/Valid.antt =====
-- The invariant of a ByteArray, and the file that it stands for.
use fatdog.Base.{
  ℕ, zero, suc, ◌+◌, ◌*◌, ◌^◌, ◌≤◌, ◌<◌, ◌≡◌, refl, sym, ap, ◌∙◌, inl, inr, List, [], ◌∷◌, ◌++◌,
  Option, none, some, length, take, drop, arith, append_assoc, length-take, length-tabulate,
  le-or-lt, le→not_ltb, lt→ltb,
}
use fatdog.ByteArray.State.{Node, ByteArray, init, mem, node_at}
use fatdog.ByteArray.File.{File}
use fatdog.ByteArray.Raw.Chain.{IsChain, length-mem}

-- m_cur is the node that holds the position, and null where the position is the capacity.
abbrev pub At : ℕ → ℕ → ℕ → Option ℕ → Type 0
At base count position none = position ≡ count * base
At base count position (some i) = (i < count) × (i * base ≤ position) × (position < i * base + base)

pub record IsValid (self : ByteArray) : Type 0 where
  pub has_base : 0 < self.base_size
  pub chain : IsChain self.base_size self.nodes
  pub rooted : 0 < length self.nodes
  pub filled : self.capacity ≡ length self.nodes * self.base_size
  pub in_size : self.position ≤ self.size
  pub in_capacity : self.size ≤ self.capacity
  pub small : self.capacity < 2 ^ 64
  pub at_cur : At self.base_size (length self.nodes) self.position self.cur

unfoldable pub contents : ByteArray → List ℕ
contents self = take self.size (mem self.nodes)

unfoldable pub view : ByteArray → File
unfolding contents
view self = record { bytes = contents self; position = self.position }

pub length-contents : (self : ByteArray) → IsValid self → length (contents self) ≡ self.size
unfolding contents
length-contents self v =
    omega
      (arith, length-take self.size (mem self.nodes), length-mem self.base_size self.nodes v.chain)

pub base_small : (self : ByteArray) → IsValid self → self.base_size < 2 ^ 64
base_small self v = grind arith

-- The place that a walk of the chain ends at is the place of the position.
pub node_at-At :
    (base : ℕ) (ns : List Node) (i position : ℕ)
    → 0 < base
    → i * base ≤ position
    → position < i * base + base
    → position ≤ length ns * base
    → At base (length ns) position (node_at ns i)
unfolding node_at
node_at-At base ns i position pos low high cap = elim (le-or-lt (length ns) i) [
  | inl out ↦ rw (le→not_ltb i (length ns) out) (grind arith)
  | inr within ↦ rw (lt→ltb i (length ns) within) (within, low, high)
]

pub mem-append : (xs ys : List Node) → mem (xs ++ ys) ≡ mem xs ++ mem ys
mem-append [] ys = refl
mem-append (x ∷ xs) ys =
    ap (◌++◌ x.bytes) (mem-append xs ys) ∙ sym (append_assoc x.bytes (mem xs) (mem ys))

pub IsChain-append :
    (base : ℕ) (xs ys : List Node) → IsChain base xs → IsChain base ys → IsChain base (xs ++ ys)
IsChain-append base [] ys hx hy = hy
IsChain-append base (x ∷ xs) ys hx hy = (hx.0, IsChain-append base xs ys hx.1 hy)

pub IsChain-take : (base i : ℕ) (ns : List Node) → IsChain base ns → IsChain base (take i ns)
IsChain-take base zero ns h = tt
IsChain-take base (suc i) [] h = tt
IsChain-take base (suc i) (n ∷ ns) h = (h.0, IsChain-take base i ns h.1)

pub IsChain-drop : (base i : ℕ) (ns : List Node) → IsChain base ns → IsChain base (drop i ns)
IsChain-drop base zero ns h = h
IsChain-drop base (suc i) [] h = tt
IsChain-drop base (suc i) (n ∷ ns) h = IsChain-drop base i ns h.1

-- A new object is valid and empty.
pub init-IsValid : (fresh : ℕ → ℕ) (base : ℕ) → 0 < base → base < 2 ^ 64 → IsValid (init fresh base)
unfolding init
init-IsValid fresh base pos small = record {
  has_base = pos;
  chain = ((refl, length-tabulate base _), tt);
  rooted = omega arith;
  filled = omega arith;
  in_size = omega arith;
  in_capacity = omega arith;
  small = small;
  at_cur = (omega arith, omega arith, omega arith);
}
