-- ===== src/ByteArray/Runs.antt =====
-- Runs of ByteArray on concrete inputs, and its theorems at concrete inputs.
use fatdog.Base.{◌↔◌, ◌<◌, ◌-◌, ℕ, ◌≡◌, refl, List, [], ◌∷◌, none, some, length, arith}
use fatdog.ByteArray.State.{ByteArray, big, returns, throws, crash, ◌>>◌, init}
use fatdog.ByteArray.File
use fatdog.ByteArray.File.{File}
use fatdog.ByteArray.Raw.{write, read, set_position, to_string, add_capacity}
use fatdog.ByteArray.Raw.Valid.{IsValid, view, init-IsValid}
use fatdog.ByteArray.Raw.Grow.{IsShort}
use fatdog.ByteArray.Raw.Capacity.{Ready, add_capacity-Ready}
use fatdog.ByteArray.Raw.Write.{Wrote, write-Wrote}
use fatdog.ByteArray.Raw.Overrun.{write_overruns}
use fatdog.ByteArray.Raw.Read.{Moved, read-Moved, read_throws}
use fatdog.ByteArray.Raw.Seek.{read-write}
use fatdog.Base.Words.{add64, sub64}
use fatdog.ByteArray.State.{get_read_size}
use fatdog.ByteArray.Buffers.{AreInside, total, Iovec, get_read_buffers, gather}
use fatdog.ByteArray.Buffers.Gathered.{get_read_buffers_lem}
use fatdog.ByteArray.Raw.{read_at, read_loop}

-- Nodes of four bytes, and of one.
abbrev fours : ByteArray
fours = init (λ i. i) 4

abbrev ones : ByteArray
ones = init (λ i. i) 1

fours-IsValid : IsValid fours
fours-IsValid = init-IsValid (λ i. i) 4 (omega arith) (omega arith)

ones-IsValid : IsValid ones
ones-IsValid = init-IsValid (λ i. i) 1 (omega arith) (omega arith)

abbrev pub three : List ℕ
three = 7 ∷ 8 ∷ 9 ∷ []

abbrev five : List ℕ
five = 1 ∷ 2 ∷ 3 ∷ 4 ∷ 5 ∷ []

three_not-IsShort : ¬ IsShort fours (length three)
unfolding init
three_not-IsShort h = omega arith

three_not-IsShort-ones : ¬ IsShort ones (length three)
unfolding init
three_not-IsShort-ones h = omega arith

write-Wrote_example :
    (self' : ByteArray) × (write three ones ≡ returns tt self') × Wrote ones three self'
unfolding init
write-Wrote_example = write-Wrote ones three ones-IsValid three_not-IsShort-ones (omega arith)

write_overruns_example : write five fours ≡ crash
unfolding init
write_overruns_example =
    write_overruns fours five fours-IsValid (omega arith, omega arith) (omega arith)

read-write_example :
    (self' : ByteArray) × ((do write three; set_position fours.position; read 3) fours
      ≡ returns three self')
    × IsValid self'
    × (view self' ≡ File.write three (view fours))
unfolding init
read-write_example =
    read-write fours three fours-IsValid (omega arith) three_not-IsShort (omega arith)

-- Two nodes with five bytes of content, read up to the second byte.
abbrev pub loaded : ByteArray
loaded = record {
  base_size = 4;
  position = 1;
  capacity = 8;
  size = 5;
  endian = big;
  nodes =
      record { bytes = 0 ∷ 2 ∷ 0 ∷ 9 ∷ []; size = 4 }
      ∷ record { bytes = 9 ∷ 0 ∷ 0 ∷ 0 ∷ []; size = 4 }
      ∷ [];
  cur = some 0;
  fresh = λ i. i;
}

pub loaded-IsValid : IsValid loaded
loaded-IsValid = record {
  has_base = omega arith;
  chain = ((refl, refl), ((refl, refl), tt));
  rooted = omega arith;
  filled = refl;
  in_size = omega arith;
  in_capacity = omega arith;
  small = omega arith;
  at_cur = (omega arith, omega arith, omega arith);
}

-- The same at the end of its capacity.
abbrev full : ByteArray
full = record loaded { position = 8; size = 8; cur = none }

full-IsValid : IsValid full
full-IsValid = record {
  has_base = omega arith;
  chain = ((refl, refl), ((refl, refl), tt));
  rooted = omega arith;
  filled = refl;
  in_size = omega arith;
  in_capacity = omega arith;
  small = omega arith;
  at_cur = refl;
}

read-Moved_example :
    (self' : ByteArray) × (read 4 loaded ≡ returns (File.peek 4 (view loaded)) self')
    × Moved loaded 4 self'
read-Moved_example = read-Moved loaded 4 loaded-IsValid (omega arith) (omega arith)

read_throws_example :
    (read 5 loaded ≡ throws loaded) ↔ ((loaded.size - loaded.position < 5) × (loaded ≡ loaded))
read_throws_example = read_throws loaded loaded 5 loaded-IsValid

to_string-loaded : to_string loaded ≡ returns (2 ∷ 0 ∷ 9 ∷ 9 ∷ []) loaded
unfolding to_string get_read_size sub64 read_at read_loop add64
to_string-loaded = refl

add_capacity-Ready_example :
    (self' : ByteArray) × (add_capacity 6 full ≡ returns tt self') × Ready full 6 self'
add_capacity-Ready_example = add_capacity-Ready full 6 full-IsValid (λ h. omega arith) (omega arith)

get_read_buffers_lem_example :
    (vs : List Iovec) × (get_read_buffers 9 loaded ≡ returns (vs, 4) loaded)
    × (gather loaded.nodes vs ≡ File.peek 4 (view loaded))
    × AreInside loaded.nodes vs
    × (total vs ≡ 4)
get_read_buffers_lem_example = get_read_buffers_lem loaded loaded-IsValid 9
