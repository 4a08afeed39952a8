-- ===== src/ByteArray/Raw/Chain.antt =====
-- The walks along a chain of nodes of equal size, against the bytes of the whole chain.
use fatdog.Base.{
  ℕ, suc, ◌+◌, ◌-◌, ◌*◌, ◌≤◌, ◌<◌, ◌≡◌, refl, sym, ap, ◌∙◌, inl, inr, List, [], ◌∷◌, ◌++◌, none,
  some, All, length, take, drop, overwrite, ◌==◌, arith, length-append, length-drop,
  length-overwrite, overwrite-append, overwrite-append_fits, slice-append_left, slice-append_across,
  le-or-lt,
}
use fatdog.Base.Words.{add64, add64_lem, sub64_lem}
use fatdog.ByteArray.State.{Node, mem}
use fatdog.Base.{if◌then◌else◌, ◌^◌}
use fatdog.ByteArray.Raw.{write_loop, read_loop, seek}

abbrev pub IsNode : ℕ → Node → Type 0
IsNode base n = (n.size ≡ base) × (length n.bytes ≡ base)

abbrev pub IsChain : ℕ → List Node → Type 0
IsChain base = All (IsNode base)

pub length-mem : (base : ℕ) (ns : List Node) → IsChain base ns → length (mem ns) ≡ length ns * base
length-mem base [] h = omega arith
length-mem base (n ∷ ns) h = omega (arith, length-append n.bytes (mem ns), length-mem base ns h.1)

-- What the loop of `write` leaves of the chain `ns`.
pub record Stored (base : ℕ) (ns : List Node) (npos : ℕ) (buf : List ℕ) (chain : List Node)
    (moved : ℕ) : Type 0 where
  pub bytes : mem chain ≡ overwrite (mem ns) npos buf
  pub nodes : IsChain base chain
  pub count : length chain ≡ length ns
  pub low : moved * base ≤ npos + length buf
  pub high : npos + length buf < moved * base + base

module _ (base : ℕ) (pos : 0 < base) (small : base < 2 ^ 64) where
  write_loop-last :
      (n : Node) (rest : List Node) (npos : ℕ) (buf : List ℕ) (position : ℕ)
      → IsNode base n
      → npos < base
      → 0 < length buf
      → npos + length buf ≤ base
      → position + length buf < 2 ^ 64
      → write_loop (n ∷ rest) npos buf position
        ≡ some (
          record n { bytes = overwrite n.bytes npos buf } ∷ rest,
          if base == npos + length buf then 1 else 0,
          position + length buf,
        )
  unfolding write_loop
  write_loop-last n rest npos buf position hn hp hb fit hs =
      ground
        (arith, sub64_lem n.size npos, add64_lem npos (length buf), add64_lem position (length buf))

  write_loop-next :
      (n : Node) (rest : List Node) (npos : ℕ) (buf : List ℕ) (position : ℕ) {chain : List Node}
      {moved end : ℕ}
      → IsNode base n
      → npos < base
      → base < npos + length buf
      → position + length buf < 2 ^ 64
      → write_loop rest 0 (drop (base - npos) buf) (position + (base - npos))
        ≡ some (chain, moved, end)
      → end ≡ position + length buf
      → write_loop (n ∷ rest) npos buf position
        ≡ some (
          record n { bytes = overwrite n.bytes npos (take (base - npos) buf) } ∷ chain,
          suc moved,
          position + length buf,
        )
  unfolding write_loop
  write_loop-next n rest npos buf position hn hp far hs e sum =
      ground (arith, sub64_lem n.size npos, add64_lem position (base - npos))

  Stored-last :
      (n : Node) (rest : List Node) (npos : ℕ) (buf : List ℕ)
      → IsChain base (n ∷ rest)
      → npos + length buf ≤ base
      → Stored base
          (n ∷ rest)
          npos
          buf
          (record n { bytes = overwrite n.bytes npos buf } ∷ rest)
          (if base == npos + length buf then 1 else 0)
  Stored-last n rest npos buf hc fit = record {
    bytes = sym (overwrite-append_fits n.bytes (mem rest) npos buf (omega arith));
    nodes = ((hc.0.0, length-overwrite n.bytes npos buf ∙ hc.0.1), hc.1);
    count = refl;
    low = ground arith;
    high = ground arith;
  }

  Stored-next :
      (n : Node) (rest : List Node) (npos : ℕ) (buf : List ℕ) (chain : List Node) (moved : ℕ)
      → IsChain base (n ∷ rest)
      → npos < base
      → base < npos + length buf
      → Stored base rest 0 (drop (base - npos) buf) chain moved
      → Stored base
          (n ∷ rest)
          npos
          buf
          (record n { bytes = overwrite n.bytes npos (take (base - npos) buf) } ∷ chain)
          (suc moved)
  Stored-next n rest npos buf chain moved hc hp far st = record {
    bytes = rw (st.bytes, overwrite-append n.bytes (mem rest) npos buf (omega arith), hc.0.1) refl;
    nodes = ((hc.0.0, length-overwrite n.bytes npos (take (base - npos) buf) ∙ hc.0.1), st.nodes);
    count = ap suc st.count;
    low = omega (arith, st.low, length-drop (base - npos) buf);
    high = omega (arith, st.high, length-drop (base - npos) buf);
  }

  -- Over a chain with room the loop of `write` stores every byte, and stops behind the last one.
  pub write_loop_fits :
      (ns : List Node) (npos : ℕ) (buf : List ℕ) (position : ℕ)
      → IsChain base ns
      → npos < base
      → 0 < length buf
      → npos + length buf ≤ length ns * base
      → position + length buf < 2 ^ 64
      → (chain : List Node) × (moved : ℕ) × (write_loop ns npos buf position
          ≡ some (chain, moved, position + length buf))
        × Stored base ns npos buf chain moved
  write_loop_fits [] npos buf position hc hp hb room hs = absurd (omega arith)
  write_loop_fits (n ∷ rest) npos buf position hc hp hb room hs =
      elim (le-or-lt (npos + length buf) base) [
        | inl fit ↦ (
          record n { bytes = overwrite n.bytes npos buf } ∷ rest,
          if base == npos + length buf then 1 else 0,
          write_loop-last n rest npos buf position hc.0 hp hb fit hs,
          Stored-last n rest npos buf hc fit,
        )
        | inr far ↦
            let len = length-drop (base - npos) buf in
            let (chain, moved, e, st) =
              write_loop_fits rest 0 (drop (base - npos) buf) (position + (base - npos)) hc.1 pos
                (omega (arith, len)) (omega (arith, len)) (omega (arith, len)) in
            (
              record n { bytes = overwrite n.bytes npos (take (base - npos) buf) } ∷ chain,
              suc moved,
              write_loop-next n rest npos buf position hc.0 hp far hs e (omega (arith, len)),
              Stored-next n rest npos buf chain moved hc hp far st,
            )
      ]

  -- Over a chain without room it follows the null pointer behind the last node.
  pub write_loop_overruns :
      (ns : List Node) (npos : ℕ) (buf : List ℕ) (position : ℕ)
      → IsChain base ns
      → npos < base
      → length ns * base < npos + length buf
      → 0 < length buf
      → write_loop ns npos buf position ≡ none
  unfolding write_loop
  write_loop_overruns [] npos buf position hc hp far hb = ground arith
  write_loop_overruns (n ∷ rest) npos buf position hc hp far hb = ground (
    arith,
    sub64_lem n.size npos,
    length-drop (base - npos) buf,
    write_loop_overruns rest 0 (drop (base - npos) buf) (add64 position (base - npos)) hc.1 pos,
  )

  read_loop-none :
      (npos size position : ℕ)
      → size ≡ 0
      → read_loop [] npos size position ≡ some (take size (drop npos []), 0, position + size)
  unfolding read_loop
  read_loop-none npos size position e =
      rw e (ap (λ k. some ([], 0, k)) {x = position} {y = position + 0} (omega arith))

  read_loop-last :
      (n : Node) (rest : List Node) (npos size position : ℕ)
      → IsNode base n
      → npos < base
      → npos + size ≤ base
      → position + size < 2 ^ 64
      → read_loop (n ∷ rest) npos size position
        ≡ some (
          take size (drop npos (n.bytes ++ mem rest)),
          if base == npos + size then 1 else 0,
          position + size,
        )
  unfolding read_loop
  read_loop-last n rest npos size position hn hp fit hs = ground (
    arith,
    slice-append_left n.bytes (mem rest) npos size,
    sub64_lem n.size npos,
    add64_lem npos size,
    add64_lem position size,
  )

  read_loop-next :
      (n : Node) (rest : List Node) (npos size position : ℕ) {out : List ℕ} {moved end : ℕ}
      → IsNode base n
      → npos < base
      → base < npos + size
      → position + size < 2 ^ 64
      → read_loop rest 0 (size - (base - npos)) (position + (base - npos)) ≡ some (out, moved, end)
      → out ≡ take (size - (base - npos)) (mem rest)
      → end ≡ position + size
      → read_loop (n ∷ rest) npos size position
        ≡ some (take size (drop npos (n.bytes ++ mem rest)), suc moved, position + size)
  unfolding read_loop
  read_loop-next n rest npos size position hn hp far hs e eo sum = ground (
    arith,
    slice-append_across n.bytes (mem rest) npos size,
    sub64_lem n.size npos,
    add64_lem position (base - npos),
  )

  -- The loop of `read` copies the bytes of the chain from `npos` on, and stops behind the last one.
  pub read_loop_fits :
      (ns : List Node) (npos size position : ℕ)
      → IsChain base ns
      → npos < base
      → npos + size ≤ length ns * base
      → position + size < 2 ^ 64
      → (moved : ℕ) × (read_loop ns npos size position
          ≡ some (take size (drop npos (mem ns)), moved, position + size))
        × (moved * base ≤ npos + size)
        × (npos + size < moved * base + base)
  read_loop_fits [] npos size position hc hp room hs =
      (0, read_loop-none npos size position (omega arith), omega arith, omega arith)
  read_loop_fits (n ∷ rest) npos size position hc hp room hs = elim (le-or-lt (npos + size) base) [
    | inl fit ↦ (
      if base == npos + size then 1 else 0,
      read_loop-last n rest npos size position hc.0 hp fit hs,
      ground arith,
      ground arith,
    )
    | inr far ↦
        let (moved, e, low, high) =
          read_loop_fits rest 0 (size - (base - npos)) (position + (base - npos)) hc.1 pos
            (omega arith) (omega arith) in
        (
          suc moved,
          read_loop-next n rest npos size position hc.0 hp far hs e refl (omega arith),
          omega arith,
          omega arith,
        )
  ]

  -- The place that setPosition finds, for a position that the chain holds.
  pub seek_fits :
      (ns : List Node) (v : ℕ)
      → IsChain base ns
      → 0 < length ns
      → v ≤ length ns * base
      → (k : ℕ) × (seek ns v ≡ some k) × (k * base ≤ v) × (v < k * base + base)
  unfolding seek
  seek_fits [] v hc hl h = absurd (omega arith)
  seek_fits (n ∷ rest) v hc hl h = elim (le-or-lt v base) [
    | inl near ↦ (if v == base then 1 else 0, ground (arith, near), ground arith, ground arith)
    | inr far ↦
        let (k, e, low, high) = seek_fits rest (v - base) hc.1 (grind arith) (omega arith) in
        (suc k, ground (arith, e), omega arith, omega arith)
  ]
