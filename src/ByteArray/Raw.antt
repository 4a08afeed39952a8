-- ===== src/ByteArray/Raw.antt =====
-- The operations of fatdog/bytearray.cpp that move raw bytes and the position.
-- A walk along the chain recurs on the nodes that are left; where it would go past the last one,
-- the code reads through a null pointer.
pub mod Chain
pub mod Valid
pub mod Grow
pub mod Capacity
pub mod Write
pub mod Overrun
pub mod Read
pub mod Seek
pub mod Ahead
use fatdog.Base.{
  ℕ, zero, suc, ◌+◌, ◌-◌, ◌/◌, ◌%◌, List, [], ◌∷◌, ◌++◌, Option, none, some, length, take, drop,
  overwrite, ltb, leb, ◌==◌, if◌then◌else◌,
}
use fatdog.Base.Words.{add64, sub64}
use fatdog.ByteArray.State.{
  Node, ByteArray, Outcome, returns, throws, crash, M, pure, ◌>>◌, new_node, get_read_size,
  get_capacity, node_at,
}
use mathlib.Core.Option

-- The loop of addCapacity that links new nodes behind the last one.
pub append_nodes : ℕ → ByteArray → ByteArray
append_nodes zero self = self
append_nodes (suc count) self = append_nodes count (record self {
  nodes = self.nodes ++ new_node self.fresh self.capacity self.base_size ∷ [];
  capacity = add64 self.capacity self.base_size;
})

-- `first` of addCapacity: the first node that was linked.
pub first_new : ℕ → ByteArray → Option ℕ
first_new zero self = none
first_new (suc count) self = some (length self.nodes)

-- How many nodes addCapacity links for `excess` bytes beyond the `old_cap` bytes that are left.
pub node_count : ℕ → ℕ → ℕ → ℕ
node_count excess base old_cap = excess / base + (if ltb old_cap (excess % base) then 1 else 0)

pub add_capacity : ℕ → M (Unit {0})
add_capacity size self =
    let old_cap = get_capacity self in
    let count = node_count (sub64 size old_cap) self.base_size old_cap in
    let self' = append_nodes count self in
    if size == 0
    then returns tt self
    else if leb size old_cap
    then returns tt self
    else if self.base_size == 0
    then crash
    else if old_cap == 0
    then returns tt (record self' { cur = first_new count self })
    else returns tt self'

-- The loop of `write` over the nodes from m_cur on: the nodes with the bytes in place, how many
-- nodes m_cur has moved on, and the position.
pub write_loop : List Node → ℕ → List ℕ → ℕ → Option (List Node × ℕ × ℕ)
write_loop [] npos buf position = if length buf == 0 then some ([], 0, position) else none
write_loop (n ∷ rest) npos buf position =
    let ncap = sub64 n.size npos in
    let size = length buf in
    let more = write_loop rest 0 (drop ncap buf) (add64 position ncap) in
    if size == 0
    then some (n ∷ rest, 0, position)
    else if leb size ncap
    then some (
      record n { bytes = overwrite n.bytes npos buf } ∷ rest,
      if n.size == add64 npos size then 1 else 0,
      add64 position size,
    )
    else elim more [
      | none ↦ none
      | some (rest', moved, position') ↦ some (
        record n { bytes = overwrite n.bytes npos (take ncap buf) } ∷ rest',
        suc moved,
        position',
      )
    ]

-- The end of `write`: the object with what the loop, started at node `i`, has left.
pub stored : ByteArray → ℕ → Option (List Node × ℕ × ℕ) → Outcome (Unit {0})
stored self i none = crash
stored self i (some (chain, moved, position)) = returns tt (record self {
  position = position;
  size = if ltb self.size position then position else self.size;
  nodes = take i self.nodes ++ chain;
  cur = node_at self.nodes (i + moved);
})

-- What `write` does behind its call of addCapacity.
pub write_here : List ℕ → M (Unit {0})
unfolding stored
write_here buf self = if self.base_size == 0 then crash else elim self.cur [
  | none ↦ crash
  | some i ↦
      stored self i
        (write_loop (drop i self.nodes) (self.position % self.base_size) buf self.position)
]

-- write(const void *buf, size_t size)
pub write : List ℕ → M (Unit {0})
write buf = if length buf == 0 then pure tt else (do add_capacity (length buf); write_here buf)

-- The loop of `read` over the nodes from m_cur on: the bytes copied, how many nodes m_cur has
-- moved on, and the position.
unfoldable pub read_loop : List Node → ℕ → ℕ → ℕ → Option (List ℕ × ℕ × ℕ)
read_loop [] npos size position = if size == 0 then some ([], 0, position) else none
read_loop (n ∷ rest) npos size position =
    let ncap = sub64 n.size npos in
    let more = read_loop rest 0 (size - ncap) (add64 position ncap) in
    if size == 0
    then some ([], 0, position)
    else if leb size ncap
    then some (
      take size (drop npos n.bytes),
      if n.size == add64 npos size then 1 else 0,
      add64 position size,
    )
    else elim more [
      | none ↦ none
      | some (out, moved, position') ↦
          some (take ncap (drop npos n.bytes) ++ out, suc moved, position')
    ]

-- The end of `read`: the bytes, and the object with what the loop, started at node `i`, has left.
pub copied : ByteArray → ℕ → Option (List ℕ × ℕ × ℕ) → Outcome (List ℕ)
copied self i none = crash
copied self i (some (out, moved, position)) =
    returns out (record self { position = position; cur = node_at self.nodes (i + moved) })

-- read(void *buf, size_t size). `m_cur->size` is read ahead of the loop, also for no byte at all.
pub read : ℕ → M (List ℕ)
unfolding copied
read size self =
    if ltb (get_read_size self) size
    then throws self
    else if self.base_size == 0
    then crash
    else elim self.cur [
      | none ↦ crash
      | some i ↦
          copied self i
            (read_loop (drop i self.nodes) (self.position % self.base_size) size self.position)
    ]

-- The end of the `read` that leaves the object alone.
pub peeked : ByteArray → Option (List ℕ × ℕ × ℕ) → Outcome (List ℕ)
peeked self none = crash
peeked self (some (out, moved, position)) = returns out self

-- read(void *buf, size_t size, size_t position) const. It starts at the node m_cur whatever
-- `position` is.
unfoldable pub read_at : ℕ → ℕ → M (List ℕ)
unfolding peeked
read_at size position self =
    if ltb (get_read_size self) size
    then throws self
    else if self.base_size == 0
    then crash
    else elim self.cur [
      | none ↦ crash
      | some i ↦
          peeked self (read_loop (drop i self.nodes) (position % self.base_size) size position)
    ]

-- toString()
unfoldable pub to_string : M (List ℕ)
to_string self =
    if get_read_size self == 0
    then returns [] self
    else read_at (get_read_size self) self.position self

-- The loop of setPosition: how many nodes m_cur ends behind m_root.
pub seek : List Node → ℕ → Option ℕ
seek [] v = none
seek (n ∷ rest) v =
    let more = seek rest (v - n.size) in
    if ltb n.size v then Option.map suc more else some (if v == n.size then 1 else 0)

-- setPosition(size_t v)
pub set_position : ℕ → M (Unit {0})
set_position v self = if ltb self.capacity v then throws self else elim (seek self.nodes v) [
  | none ↦ crash
  | some k ↦ returns tt (record self {
    position = v;
    size = if ltb self.size v then v else self.size;
    cur = node_at self.nodes k;
  })
]

-- clear()
pub clear : M (Unit {0})
clear self = returns tt (record self {
  position = 0;
  size = 0;
  capacity = self.base_size;
  nodes = take 1 self.nodes;
  cur = some 0;
})
