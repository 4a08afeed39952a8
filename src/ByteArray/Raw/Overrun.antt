-- ===== src/ByteArray/Raw/Overrun.antt =====
-- `write` where addCapacity links too few nodes: it follows the null pointer behind the last one.
use fatdog.Base.{
  ℕ, ◌+◌, ◌-◌, ◌*◌, ◌%◌, ◌^◌, ◌<◌, ◌≡◌, refl, ap, ◌∙◌, List, [], ◌∷◌, Option, none, some, length,
  drop, arith, length-drop, pos→not_zero,
}
use fatdog.Base.Words.{mod_between}
use fatdog.ByteArray.State.{ByteArray, crash, after}
use fatdog.ByteArray.Raw.{write_here, write}
use fatdog.ByteArray.Raw.Chain.{write_loop_overruns}
use fatdog.ByteArray.Raw.Valid.{IsValid, At, base_small, IsChain-drop}
use fatdog.ByteArray.Raw.Grow.{IsShort}
use fatdog.ByteArray.Raw.Capacity.{add_capacity-short}
use fatdog.ByteArray.Raw.Write.{rest_room, write-cons}
use native.Mathlib.Nat.{zero-mod}

write_here_overruns-At :
    (self : ByteArray) (buf : List ℕ) (cur : Option ℕ)
    → IsValid self
    → 0 < length buf
    → self.capacity < self.position + length buf
    → self.cur ≡ cur
    → At self.base_size (length self.nodes) self.position cur
    → write_here buf self ≡ crash
unfolding write_here
write_here_overruns-At self buf none v hb far e a = rw (pos→not_zero self.base_size v.has_base, e)
write_here_overruns-At self buf (some i) v hb far e a = rw (
  pos→not_zero self.base_size v.has_base,
  e,
  mod_between self.base_size i self.position v.has_base a.1 a.2,
  write_loop_overruns self.base_size v.has_base (base_small self v) (drop i self.nodes)
      (self.position - i * self.base_size) buf self.position
      (IsChain-drop self.base_size i self.nodes v.chain) (omega (arith, a.1, a.2))
      (omega (
        arith,
        ap (λ (t : ℕ). t * self.base_size) (length-drop i self.nodes),
        rest_room self.base_size i (length self.nodes) (omega (arith, a.0)),
        v.filled,
        a.1,
      ))
      hb,
)

-- No byte is missing for an empty write.
zero-mod-sub : (self : ByteArray) → (0 - (self.capacity - self.position)) % self.base_size ≡ 0
zero-mod-sub self =
    ap (λ k. k % self.base_size) {x = 0 - (self.capacity - self.position)} {y = 0} (omega arith)
    ∙ zero-mod self.base_size

-- In the case that addCapacity falls short in, below 2 ^ 64, `write` on a valid object does not
-- return: it follows the null pointer behind the last node.
pub write_overruns :
    (self : ByteArray) (buf : List ℕ)
    → IsValid self
    → IsShort self (length buf)
    → self.position + length buf + self.base_size < 2 ^ 64
    → write buf self ≡ crash
write_overruns self [] v sh bound = absurd (omega (arith, sh.0, zero-mod-sub self))
write_overruns self (b ∷ bs) v sh bound =
    let (mid, grown, valid, far, pos) = add_capacity-short self (length (b ∷ bs)) v sh bound in
    write-cons self b bs
    ∙ ap (after (λ _. write_here (b ∷ bs))) grown
    ∙ write_here_overruns-At mid (b ∷ bs) mid.cur valid (omega arith) (rw pos far) refl valid.at_cur
