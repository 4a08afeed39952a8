-- ===== src/Stream/Whole.antt =====
-- readFixSize and writeFixSize transfer the whole length, or end with 0.
use fatdog.Base.{
  ℕ, zero, suc, ◌+◌, ◌-◌, ◌^◌, ◌%◌, ◌≤◌, ◌<◌, ◌≡◌, refl, sym, ap, ◌∙◌, subst, Option, some, true,
  false, ◌==◌, if◌then◌else◌, arith, inl, inr, ◌⊎◌, Bool-cases, ==_iff, lt→ltb,
}
use fatdog.Base.Words.{add64, sub64, add64_lem, sub64_lem}
use fatdog.Base.Signed.{ℤ, pos, to_signed, to_unsigned}
use native.Mathlib.Nat.{mod-eq_of_lt}
use fatdog.Stream.{
  Transfer, ArrayTransfer, to_size, to_int, transfer_loop, read_fix_size, write_fix_size,
  array_loop, read_fix_size_array, write_fix_size_array,
}

-- A transfer that succeeds: at `offset`, where `Holds offset` is known of the state, it transfers at
-- most `left` bytes, and `Holds` then of so many more. `Holds` may be any property.
pub record IsTransfer {S : Type 0} (transfer : Transfer S) (Holds : ℕ → S → Type 0) : Type 0 where
  pub moved : (offset left : ℕ) → S → ℕ
  pub result :
      (offset left : ℕ) (s : S)
      → Holds offset s
      → (transfer offset left s).0 ≡ pos (moved offset left s)
  pub within : (offset left : ℕ) (s : S) → moved offset left s ≤ left
  pub holds :
      (offset left : ℕ) (s : S)
      → Holds offset s
      → Holds (offset + moved offset left s) (transfer offset left s).1

-- The stream moved no byte at `o`, short of the length, when it was asked for all that was left.
pub record Stuck {S : Type 0} (transfer : Transfer S) (Holds : ℕ → S → Type 0) (length : ℕ) (s : S)
    : Type 0 where
  pub o : ℕ
  pub short : o < length
  pub before : S
  pub held : Holds o before
  pub no_byte : transfer o (length - o) before ≡ (pos 0, s)
  pub holds : Holds o s

-- The whole is transferred and the length returned, or a transfer of no byte has ended the loop.
abbrev pub Whole : {S : Type 0} → Transfer S → (ℕ → S → Type 0) → ℕ → ℤ → S → Type 0
Whole transfer Holds length result s =
    ((result ≡ pos length) × Holds length s) ⊎ ((result ≡ pos 0) × Stuck transfer Holds length s)

to_size_lem : (z : ℤ) (n : ℕ) → z ≡ pos n → n < 2 ^ 63 → to_size z ≡ n
unfolding to_unsigned
to_size_lem z n e h = ap to_size e ∙ omega (arith, h)

to_int_lem : (n : ℕ) → n < 2 ^ 31 → to_int n ≡ pos n
unfolding to_signed
to_int_lem n h =
    let same : n % 2 ^ 32 ≡ n = mod-eq_of_lt (omega (arith, h)) in
    rw (same, lt→ltb n (2 ^ 31) h) refl

module _ {S : Type 0} (transfer : Transfer S) (Holds : ℕ → S → Type 0)
    (good : IsTransfer transfer Holds) (length : ℕ) (small : length < 2 ^ 31) where
  abbrev Answer : Option (ℤ × S) → Type 0
  Answer o =
      (result : ℤ) × (s' : S) × (o ≡ some (result, s')) × Whole transfer Holds length result s'

  -- Nothing is left.
  loop_over :
      (n offset left : ℕ) (s : S)
      → offset + left ≡ length
      → Holds offset s
      → (left == 0) ≡ true
      → Answer (transfer_loop (suc n) transfer length offset left s)
  unfolding transfer_loop
  loop_over n offset left s total h over =
      let done : offset ≡ length = omega (arith, total, (==_iff left 0).0 over) in
      rw over (to_int length, s, refl, inl (to_int_lem length small, subst (λ o. Holds o s) done h))

  -- Some is left, and the transfer moves nothing.
  transfer-Stuck :
      (offset left : ℕ) (s : S)
      → offset + left ≡ length
      → Holds offset s
      → (left == 0) ≡ false
      → (k : ℕ) → good.moved offset left s ≡ k
      → (k == 0) ≡ true
      → Stuck transfer Holds length (transfer offset left s).1
  transfer-Stuck offset left s total h more k e stuck =
      let none_moved : good.moved offset left s ≡ 0 = e ∙ (==_iff k 0).0 stuck in
      let rest : length - offset ≡ left = omega (arith, total) in
      let s1 = (transfer offset left s).1 in
      record {
        o = offset;
        short = ground (arith, total, more);
        before = s;
        held = h;
        no_byte =
            ap (λ l. transfer offset l s) rest
            ∙ ap (λ r. (r, s1)) (good.result offset left s h ∙ ap pos none_moved);
        holds = subst (λ o. Holds o s1) (omega (arith, none_moved)) (good.holds offset left s h);
      }

  transfer_loop-Whole :
      (n offset left : ℕ) (s : S)
      → offset + left ≡ length
      → left ≤ n
      → Holds offset s
      → Answer (transfer_loop (suc n) transfer length offset left s)
  unfolding transfer_loop
  transfer_loop-Whole zero offset left s total enough h =
      loop_over zero offset left s total h (ground (arith, enough))
  transfer_loop-Whole (suc m) offset left s total enough h = elim (Bool-cases (left == 0)) [
    | inl over ↦ loop_over (suc m) offset left s total h over
    | inr more ↦
        let k = good.moved offset left s in
        let s1 = (transfer offset left s).1 in
        let len : to_size (transfer offset left s).0 ≡ k =
          to_size_lem (transfer offset left s).0 k (good.result offset left s h)
            (omega (arith, good.within offset left s, total, small)) in
        let held : Holds (offset + k) s1 = good.holds offset left s h in
        elim (Bool-cases (k == 0)) [
          | inl stuck ↦
              rw (more, len, stuck)
                (
                  to_int k,
                  s1,
                  refl,
                  inr (
                    ap to_int ((==_iff k 0).0 stuck) ∙ to_int_lem 0 (omega arith),
                    transfer-Stuck offset left s total h more k refl stuck,
                  ),
                )
          | inr moves ↦
              let sum : add64 offset k ≡ offset + k =
                add64_lem offset k (omega (arith, good.within offset left s, total, small)) in
              let difference : sub64 left k ≡ left - k =
                sub64_lem left k (good.within offset left s) (omega (arith, total, small)) in
              rw (more, len, moves, sum, difference)
                (transfer_loop-Whole m (offset + k) (left - k) s1
                  (omega (arith, total, good.within offset left s))
                  (ground (arith, enough, moves, good.within offset left s)) held)
        ]
  ]

  -- Over a read, or a write, that never fails and transfers at most the bytes it is asked for,
  -- readFixSize and writeFixSize of a buffer of less than 2^31 bytes end, within as many rounds
  -- as there are bytes and one, and return the length with the whole transferred, or else 0. For
  -- 0 there was a transfer that was asked for all that was left, at a place short of the length,
  -- and moved nothing; the stream is left as behind it. Whatever is known of a state in which
  -- some number of bytes has been transferred, and is kept by each transfer, is known of the
  -- state they leave for the number they have transferred.
  pub buffer-Whole :
      (s : S)
      → Holds 0 s
      → Answer (read_fix_size (suc length) transfer length s)
        × Answer (write_fix_size (suc length) transfer length s)
  unfolding read_fix_size write_fix_size transfer_loop
  buffer-Whole s h =
      let whole = transfer_loop-Whole length 0 length s (omega arith) (omega arith) h in
      (whole, whole)

-- The loop on a ByteArray is that on a buffer whose place is not looked at.
array_loop_lem :
    {S : Type 0} (transfer : ArrayTransfer S) (length n offset left : ℕ) (s : S)
    → array_loop n transfer length left s ≡ transfer_loop n (λ o. transfer) length offset left s
unfolding array_loop transfer_loop
array_loop_lem transfer length zero offset left s = refl
array_loop_lem transfer length (suc n) offset left s =
    let (result, s') = transfer left s in
    ap
      (λ r.
        if left == 0
        then some (to_int length, s)
        else if to_size result == 0
        then some (to_int (to_size result), s')
        else r)
      (array_loop_lem transfer length n (add64 offset (to_size result))
        (sub64 left (to_size result)) s')

module _ {S : Type 0} (transfer : ArrayTransfer S) (Holds : ℕ → S → Type 0)
    (good : IsTransfer (λ o. transfer) Holds) (length : ℕ) (small : length < 2 ^ 31) where
  pub array-Whole :
      (s : S)
      → Holds 0 s
      → Answer
          (λ o. transfer)
          Holds
          good
          length
          small
          (read_fix_size_array (suc length) transfer length s)
        × Answer
            (λ o. transfer)
            Holds
            good
            length
            small
            (write_fix_size_array (suc length) transfer length s)
  unfolding read_fix_size_array write_fix_size_array array_loop
  array-Whole s h =
      let whole =
        subst (Answer (λ o. transfer) Holds good length small)
          (sym (array_loop_lem transfer length (suc length) 0 length s))
          (transfer_loop-Whole (λ o. transfer) Holds good length small length 0 length s
            (omega arith) (omega arith) h) in
      (whole, whole)
