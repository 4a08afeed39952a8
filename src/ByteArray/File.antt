-- ===== src/ByteArray/File.antt =====
-- What a ByteArray promises: a file in memory, with a position that does not pass its end.
use fatdog.Base.{
  ℕ, ◌+◌, ◌-◌, ◌≤◌, ◌≡◌, ap, ◌∙◌, List, [], ◌++◌, length, take, drop, arith, length-take,
  length-append, take-length-append, drop-length-append, take-append_right, drop-append_right,
  drop-drop, append_assoc,
}

pub record File : Type 0 where
  pub bytes : List ℕ
  pub position : ℕ

-- A write replaces what stands at the position, and extends the file where it goes beyond the end.
unfoldable pub write : List ℕ → File → File
write buf f = record {
  bytes = take f.position f.bytes ++ (buf ++ drop (f.position + length buf) f.bytes);
  position = f.position + length buf;
}

-- The bytes that a read of `size` bytes returns, and the file behind it.
unfoldable pub peek : ℕ → File → List ℕ
peek size f = take size (drop f.position f.bytes)

unfoldable pub skip : ℕ → File → File
skip size f = record f { position = f.position + size }

unfoldable pub seek : ℕ → File → File
seek v f = record f { position = v }

unfoldable pub empty : File
empty = record { bytes = []; position = 0 }

-- What was written stands ahead of where it was written.
pub ahead-write :
    (buf : List ℕ) (f : File)
    → f.position ≤ length f.bytes
    → let g = seek f.position (write buf f) in
      drop g.position g.bytes ≡ buf ++ drop (f.position + length buf) f.bytes
unfolding seek write
ahead-write buf f h =
    let rest : List ℕ = buf ++ drop (f.position + length buf) f.bytes in
    ap (λ k. drop k (take f.position f.bytes ++ rest)) {x = f.position}
      {y = length (take f.position f.bytes)} (omega (arith, length-take f.position f.bytes))
    ∙ drop-length-append (take f.position f.bytes) rest

-- So it is read back.
pub peek-write :
    (buf : List ℕ) (f : File)
    → f.position ≤ length f.bytes
    → peek (length buf) (seek f.position (write buf f)) ≡ buf
unfolding peek
peek-write buf f h =
    ap (take (length buf)) (ahead-write buf f h)
    ∙ take-length-append buf (drop (f.position + length buf) f.bytes)

-- Two writes in a row are one.
pub write-write :
    (xs ys : List ℕ) (f : File)
    → f.position ≤ length f.bytes
    → write ys (write xs f) ≡ write (xs ++ ys) f
unfolding write
write-write xs ys f h = λ i. record { bytes = bytes_path i; position = position_path i }
  where
    old : List ℕ
    old = f.bytes

    front : List ℕ
    front = take f.position old

    rest : List ℕ
    rest = xs ++ drop (f.position + length xs) old

    front_length : length front ≡ f.position
    front_length = omega (arith, length-take f.position old)

    position_path : f.position + length xs + length ys ≡ f.position + length (xs ++ ys)
    position_path = omega (arith, length-append xs ys)

    front_path : take (f.position + length xs) (front ++ rest) ≡ front ++ xs
    front_path =
        take-append_right (f.position + length xs) front rest (omega (arith, front_length))
        ∙ ap (λ k. front ++ take k rest) {x = f.position + length xs - length front} {y = length xs}
            (omega (arith, front_length))
        ∙ ap (◌++◌ front) (take-length-append xs (drop (f.position + length xs) old))

    back_path :
        drop (f.position + length xs + length ys) (front ++ rest)
        ≡ drop (f.position + length (xs ++ ys)) old
    back_path =
        drop-append_right front rest (f.position + length xs + length ys)
          (omega (arith, front_length))
        ∙ drop-append_right xs (drop (f.position + length xs) old)
            (f.position + length xs + length ys - length front) (omega (arith, front_length))
        ∙ drop-drop (f.position + length xs + length ys - length front - length xs)
            (f.position + length xs) old
        ∙ ap (λ k. drop k old)
            {x = f.position
              + length xs
              + length ys
              - length front
              - length xs
              + (f.position + length xs)}
            {y = f.position + length (xs ++ ys)} (omega (arith, front_length, length-append xs ys))

    bytes_path :
        take (f.position + length xs) (front ++ rest)
          ++ (ys ++ drop (f.position + length xs + length ys) (front ++ rest))
        ≡ front ++ ((xs ++ ys) ++ drop (f.position + length (xs ++ ys)) old)
    bytes_path = rw (front_path, back_path) (simp append_assoc)
