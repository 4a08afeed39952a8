-- ===== src/Stream.antt =====
-- fatdog/stream.cpp: the loops over read and write of a Stream, which are virtual and so parameters,
-- on a state of the stream and of what is read into or written from.
pub mod Whole
mod Runs
use fatdog.Base.{
  ℕ, zero, suc, ◌+◌, ◌-◌, ◌*◌, ◌^◌, ◌%◌, Option, none, some, Bool, true, false, ◌==◌, if◌then◌else◌,
}
use fatdog.Base.Words.{add64, sub64}
use fatdog.Base.Signed.{ℤ, pos, negsuc, to_signed, to_unsigned}

-- read((char *)buffer + offset, left), or write of such a buffer.
abbrev pub Transfer : Type 0 → Type 0
Transfer S = ℕ → ℕ → S → ℤ × S

-- read(ba, left), or write(ba, left).
abbrev pub ArrayTransfer : Type 0 → Type 0
ArrayTransfer S = ℕ → S → ℤ × S

-- size_t len = the result, an int
abbrev pub to_size : ℤ → ℕ
to_size n = to_unsigned (2 ^ 63) n

-- return length, as an int
abbrev pub to_int : ℕ → ℤ
to_int n = to_signed (2 ^ 31) (n % 2 ^ 32)

module _ {S : Type 0} where
  -- The loop of readFixSize(buffer, length) and of writeFixSize(buffer, length), for at most `n`
  -- rounds; none where they are not enough.
  unfoldable pub transfer_loop : ℕ → Transfer S → ℕ → ℕ → ℕ → S → Option (ℤ × S)
  transfer_loop zero transfer length offset left s = none
  transfer_loop (suc n) transfer length offset left s =
      let (result, s') = transfer offset left s in
      let len = to_size result in
      let rest = transfer_loop n transfer length (add64 offset len) (sub64 left len) s' in
      if left == 0
      then some (to_int length, s)
      else if len == 0
      then some (to_int len, s')
      else rest

  -- readFixSize(buffer, length) with the stream's read, and writeFixSize with its write.
  unfoldable pub read_fix_size : ℕ → Transfer S → ℕ → S → Option (ℤ × S)
  unfolding transfer_loop
  read_fix_size n read length s = transfer_loop n read length 0 length s

  unfoldable pub write_fix_size : ℕ → Transfer S → ℕ → S → Option (ℤ × S)
  unfolding transfer_loop
  write_fix_size n write length s = transfer_loop n write length 0 length s

  -- The loop of readFixSize(ba, length) and of writeFixSize(ba, length).
  unfoldable pub array_loop : ℕ → ArrayTransfer S → ℕ → ℕ → S → Option (ℤ × S)
  array_loop zero transfer length left s = none
  array_loop (suc n) transfer length left s =
      let (result, s') = transfer left s in
      let len = to_size result in
      let rest = array_loop n transfer length (sub64 left len) s' in
      if left == 0
      then some (to_int length, s)
      else if len == 0
      then some (to_int len, s')
      else rest

  unfoldable pub read_fix_size_array : ℕ → ArrayTransfer S → ℕ → S → Option (ℤ × S)
  unfolding array_loop
  read_fix_size_array n read length s = array_loop n read length length s

  unfoldable pub write_fix_size_array : ℕ → ArrayTransfer S → ℕ → S → Option (ℤ × S)
  unfolding array_loop
  write_fix_size_array n write length s = array_loop n write length length s
