-- ===== src/ByteArray/Buffers.antt =====
-- getReadBuffers(buffers, len) of fatdog/bytearray.cpp: the memory that a gathering write would send.
pub mod Gathered
use fatdog.Base.{
  ℕ, zero, suc, ◌+◌, ◌^◌, length, arith, ==_iff, le-or-lt, le→leb, lt→not_leb, ◌-◌, ◌%◌, ◌≤◌, ◌<◌,
  ◌≡◌, refl, sym, ap, ◌∙◌, List, [], ◌∷◌, ◌++◌, Option, none, some, Bool, true, false, take, drop,
  get_elem?, ltb, leb, ◌==◌, if◌then◌else◌, Bool-cases, Option-cases, inl, inr, append-nil,
}
use fatdog.Base.Words.{sub64, sub64_lem, add64}
use fatdog.ByteArray.State.{Node, ByteArray, Outcome, returns, crash, M, get_read_size}
use fatdog.ByteArray.Raw.{read_loop}
use fatdog.ByteArray.Raw.Chain.{IsChain}
use mathlib.Core.Option
use mathlib.Core.Option.{some-ne-none}

-- An iovec: iov_base is a place in the memory of a node.
pub record Iovec : Type 0 where
  pub node : ℕ
  pub from : ℕ
  pub len : ℕ

-- The loop over the nodes from `cur` on, which is the node `i` of the chain.
pub buffers_loop : List Node → ℕ → ℕ → ℕ → Option (List Iovec)
buffers_loop [] i npos len = if len == 0 then some [] else none
buffers_loop (n ∷ rest) i npos len =
    let ncap = sub64 n.size npos in
    let more = buffers_loop rest (suc i) 0 (len - ncap) in
    if len == 0
    then some []
    else if leb len ncap
    then some (record { node = i; from = npos; len = len } ∷ [])
    else Option.map (◌∷◌ (record { node = i; from = npos; len = ncap })) more

-- The end of getReadBuffers.
abbrev pub buffered : ByteArray → ℕ → Option (List Iovec) → Outcome (List Iovec × ℕ)
buffered self size none = crash
buffered self size (some buffers) = returns (buffers, size) self

abbrev pub buffers_from : ByteArray → ℕ → Option ℕ → Outcome (List Iovec × ℕ)
unfolding buffers_loop
buffers_from self size none = crash
buffers_from self size (some i) =
    buffered self size (buffers_loop (drop i self.nodes) i (self.position % self.base_size) size)

-- getReadBuffers(buffers, len)
pub get_read_buffers : ℕ → M (List Iovec × ℕ)
unfolding buffers_from
get_read_buffers len self =
    let size = if ltb (get_read_size self) len then get_read_size self else len in
    if size == 0
    then returns ([], 0) self
    else if self.base_size == 0
    then crash
    else buffers_from self size self.cur

-- The bytes that an iovec, and a list of them, stand for.
abbrev pub segment : Option Node → Iovec → List ℕ
segment none v = []
segment (some n) v = take v.len (drop v.from n.bytes)

abbrev pub gather : List Node → List Iovec → List ℕ
gather nodes [] = []
gather nodes (v ∷ vs) = segment (get_elem? nodes v.node) v ++ gather nodes vs

-- An iovec lies in the memory of its node.
abbrev pub IsInside : List Node → Iovec → Type 0
IsInside nodes v =
    (n : Node) × (get_elem? nodes v.node ≡ some n) × (v.from + v.len ≤ length n.bytes)

abbrev pub AreInside : List Node → List Iovec → Type 0
AreInside nodes [] = Unit
AreInside nodes (v ∷ vs) = IsInside nodes v × AreInside nodes vs

-- The sum of the lengths.
abbrev pub total : List Iovec → ℕ
total [] = 0
total (v ∷ vs) = v.len + total vs

-- The buffers that a loop has made for `len` bytes, if any.
abbrev pub Lie : List Node → ℕ → Option (List Iovec) → Type 0
Lie all len none = Unit
Lie all len (some vs) = AreInside all vs × (total vs ≡ len)

drop-cons :
    (all : List Node) (i : ℕ) (n : Node) (rest : List Node)
    → drop i all ≡ n ∷ rest
    → (get_elem? all i ≡ some n) × (drop (suc i) all ≡ rest)
drop-cons [] zero n rest e = (ap (λ l. get_elem? l 0) e, ap (drop 1) e)
drop-cons [] (suc i) n rest e = (ap (λ l. get_elem? l 0) e, ap (drop 1) e)
drop-cons (x ∷ all) zero n rest e = (ap (λ l. get_elem? l 0) e, ap (drop 1) e)
drop-cons (x ∷ all) (suc i) n rest e = drop-cons all i n rest e

Lie-step :
    (all : List Node) (v : Iovec) (len : ℕ) (o : Option (List Iovec))
    → IsInside all v
    → v.len ≤ len
    → Lie all (len - v.len) o
    → Lie all len (Option.map (◌∷◌ v) o)
Lie-step all v len none inside h lie = tt
Lie-step all v len (some vs) inside h lie = ((inside, lie.0), omega (arith, h, lie.1))

-- The loop over nodes of `base` bytes, from the place `npos` of the first on.
pub buffers_loop-Lie :
    (base : ℕ) (all ns : List Node) (i npos len : ℕ)
    → base < 2 ^ 64
    → drop i all ≡ ns
    → IsChain base ns
    → npos ≤ base
    → Lie all len (buffers_loop ns i npos len)
unfolding buffers_loop
buffers_loop-Lie base all [] i npos len small e chain low = elim (Bool-cases (len == 0)) [
  | inl h ↦ rw h (tt, sym ((==_iff len 0).0 h))
  | inr h ↦ rw h tt
]
buffers_loop-Lie base all (n ∷ rest) i npos len small e chain low =
    let (at, next) = drop-cons all i n rest e in
    let room : sub64 n.size npos ≡ base - npos =
      ap (λ s. sub64 s npos) chain.0.0 ∙ sub64_lem base npos low small in
    elim (Bool-cases (len == 0)) [
      | inl h ↦ rw h (tt, sym ((==_iff len 0).0 h))
      | inr h ↦ elim (le-or-lt len (sub64 n.size npos)) [
        | inl fits ↦
            rw (h, le→leb len (sub64 n.size npos) fits)
              (((n, at, omega (arith, fits, room, low, chain.0.1)), tt), omega arith)
        | inr over ↦
            let ncap = sub64 n.size npos in
            let v : Iovec = record { node = i; from = npos; len = ncap } in
            rw (h, lt→not_leb len ncap over)
              (Lie-step all v len (buffers_loop rest (suc i) 0 (len - ncap))
                (n, at, omega (arith, room, low, chain.0.1)) (omega (arith, over))
                (buffers_loop-Lie base all rest (suc i) 0 (len - ncap) small next chain.1
                  (omega arith)))
      ]
    ]

gather-step :
    (all : List Node) (v : Iovec) (n : Node) (ncap : ℕ) (buffers : Option (List Iovec))
    (copied : Option (List ℕ × ℕ × ℕ))
    → segment (get_elem? all v.node) v ≡ take ncap (drop v.from n.bytes)
    → Option.map (gather all) buffers ≡ Option.map (λ r. r.0) copied
    → Option.map (gather all) (Option.map (◌∷◌ v) buffers)
      ≡ Option.map
          (λ r. r.0)
          (elim copied as (λ c. Option (List ℕ × ℕ × ℕ)) [
            | none ↦ none
            | some (out, moved, position) ↦
                some (take ncap (drop v.from n.bytes) ++ out, suc moved, position)
          ])
gather-step all v n ncap none none s e = refl
gather-step all v n ncap none (some r) s e = absurd (some-ne-none r.0 (sym e))
gather-step all v n ncap (some vs) none s e = absurd (some-ne-none (gather all vs) e)
gather-step all v n ncap (some vs) (some r) s e =
    ap (λ b. some (b ++ gather all vs)) s
    ∙ ap (Option.map (λ g. take ncap (drop v.from n.bytes) ++ g)) e

pub buffers_loop-read_loop :
    (all ns : List Node) (i npos len position : ℕ)
    → drop i all ≡ ns
    → Option.map (gather all) (buffers_loop ns i npos len)
      ≡ Option.map (λ r. r.0) (read_loop ns npos len position)
unfolding buffers_loop read_loop
buffers_loop-read_loop all [] i npos len position e = elim (Bool-cases (len == 0)) [
  | inl h ↦ rw h refl
  | inr h ↦ rw h refl
]
buffers_loop-read_loop all (n ∷ rest) i npos len position e = elim (Bool-cases (len == 0)) [
  | inl h ↦ rw h refl
  | inr h ↦ elim (Bool-cases (leb len (sub64 n.size npos))) [
    | inl k ↦
        rw (h, k)
          (ap (λ o. some (segment o (record { node = i; from = npos; len = len }) ++ []))
              (drop-cons all i n rest e).0
            ∙ ap some (append-nil (take len (drop npos n.bytes))))
    | inr k ↦
        let ncap = sub64 n.size npos in
        let v : Iovec = record { node = i; from = npos; len = ncap } in
        rw (h, k)
          (gather-step all v n ncap (buffers_loop rest (suc i) 0 (len - ncap))
            (read_loop rest 0 (len - ncap) (add64 position ncap))
            (ap (λ o. segment o v) (drop-cons all i n rest e).0)
            (buffers_loop-read_loop all rest (suc i) 0 (len - ncap) (add64 position ncap)
              (drop-cons all i n rest e).1))
  ]
]
