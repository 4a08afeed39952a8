-- ===== src/ByteArray/State.antt =====
-- The state of a ByteArray (fatdog/bytearray.h), what a call of it can end in, and how calls are
-- chained.
use fatdog.Base.{
  ℕ, ◌+◌, List, [], ◌∷◌, ◌++◌, Option, none, some, Bool, length, tabulate, ltb, if◌then◌else◌,
}
use fatdog.Base.Words.{sub64}

-- A node of the chain. `next` is the order of the list that holds the nodes; a null pointer in
-- place of a node is `none`, or the end of a list.
pub record Node : Type 0 where
  pub bytes : List ℕ
  pub size : ℕ

pub data Endian : Type 0 where
  little big : Endian

-- `nodes` is the chain from m_root on, `cur` the place of m_cur in it (`none` is nullptr).
-- `fresh` is what `new char[]` leaves in the memory that it hands out, which C++ does not fix.
pub record ByteArray : Type 0 where
  pub base_size : ℕ
  pub position : ℕ
  pub capacity : ℕ
  pub size : ℕ
  pub endian : Endian
  pub nodes : List Node
  pub cur : Option ℕ
  pub fresh : ℕ → ℕ

-- A call returns, or throws std::out_of_range and leaves the object as given, or does what C++
-- leaves undefined: it follows a null pointer or divides by zero.
pub data Outcome {ℓ} (A : Type ℓ) : Type ℓ where
  returns : A → ByteArray → Outcome A
  throws : ByteArray → Outcome A
  crash : Outcome A

abbrev pub M {ℓ} : Type ℓ → Type ℓ
M A = ByteArray → Outcome A

abbrev pub pure {ℓ} : {A : Type ℓ} → A → M A
pure a self = returns a self

-- The rest of a body, after a call that ended as given.
abbrev pub after {ℓ κ} : {A : Type ℓ} {B : Type κ} → (A → M B) → Outcome A → Outcome B
after f (returns a self) = f a self
after f (throws self) = throws self
after f crash = crash

infixl 5 ◌>>=◌ ◌>>◌
abbrev pub ◌>>=◌ {ℓ κ} : {A : Type ℓ} {B : Type κ} → M A → (A → M B) → M B
◌>>=◌ m f self = after f (m self)

abbrev pub ◌>>◌ {ℓ} : {B : Type ℓ} → M (Unit {0}) → M B → M B
m >> k = m >>= λ _. k

-- Node(size_t s); the node stands at byte `at` of the chain.
unfoldable pub new_node : (ℕ → ℕ) → ℕ → ℕ → Node
new_node fresh at s = record { bytes = tabulate s (λ i. fresh (at + i)); size = s }

-- ByteArray(size_t base_size)
unfoldable pub init : (ℕ → ℕ) → ℕ → ByteArray
unfolding new_node
init fresh base = record {
  base_size = base;
  position = 0;
  capacity = base;
  size = 0;
  endian = big;
  nodes = new_node fresh 0 base ∷ [];
  cur = some 0;
  fresh = fresh;
}

unfoldable pub is_little_endian : ByteArray → Bool
is_little_endian self = elim self.endian [ little ↦ Bool.true | big ↦ Bool.false ]

unfoldable pub set_is_little_endian : Bool → M (Unit {0})
set_is_little_endian val self = returns tt (record self { endian = if val then little else big })

-- getReadSize() and getCapacity(): differences of size_t.
unfoldable pub get_read_size : ByteArray → ℕ
get_read_size self = sub64 self.size self.position

unfoldable pub get_capacity : ByteArray → ℕ
get_capacity self = sub64 self.capacity self.position

-- The pointer to the node at a place of the chain, null behind its end.
unfoldable pub node_at : List Node → ℕ → Option ℕ
node_at ns i = if ltb i (length ns) then some i else none

-- All bytes of a chain, in order.
abbrev pub mem : List Node → List ℕ
mem [] = []
mem (n ∷ ns) = n.bytes ++ mem ns
