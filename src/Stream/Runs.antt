-- ===== src/Stream/Runs.antt =====
-- The theorem on the loops of a Stream at a concrete one, which gives at most two bytes at a time.
use fatdog.Base.{
  ℕ, ◌+◌, ◌≡◌, refl, ap, ◌∙◌, List, [], ◌∷◌, ◌++◌, append_assoc, some, min, length, take, drop,
  length-append, length-take, take-append-drop, arith,
}
use fatdog.Base.Signed.{ℤ, pos}
use fatdog.Stream.{Transfer, read_fix_size, write_fix_size}
use fatdog.Stream.Whole.{IsTransfer, Whole, buffer-Whole}

-- The bytes that the stream still has, and those that were read.
abbrev Source : Type 0
Source = List ℕ × List ℕ

abbrev moved : ℕ → ℕ → Source → ℕ
moved offset left (ahead, got) = min (min left 2) (length ahead)

abbrev read_two : Transfer Source
read_two offset left (ahead, got) =
    let k = moved offset left (ahead, got) in (pos k, (drop k ahead, got ++ take k ahead))

abbrev content : List ℕ
content = 5 ∷ 6 ∷ 7 ∷ 8 ∷ 9 ∷ []

-- The first bytes of the content were read, so many as the offset says.
abbrev IsRead : ℕ → Source → Type 0
IsRead offset (ahead, got) = (got ++ ahead ≡ content) × (length got ≡ offset)

read_two-IsTransfer : IsTransfer read_two IsRead
read_two-IsTransfer = record {
  moved = moved;
  result = λ offset left s h. refl;
  within = λ offset left s. omega arith;
  holds = holds;
}
  where
    holds :
        (offset left : ℕ) (s : Source)
        → IsRead offset s
        → IsRead (offset + moved offset left s) (read_two offset left s).1
    holds offset left (ahead, got) (all, at) =
        let k = moved offset left (ahead, got) in
        (
          append_assoc got (take k ahead) (drop k ahead)
              ∙ ap (λ bytes. got ++ bytes) (take-append-drop k ahead)
              ∙ all,
          omega (arith, at, length-append got (take k ahead), length-take k ahead),
        )

buffer-Whole_example :
    ((result : ℤ) × (s : Source) × (read_fix_size 4 read_two 3 (content, []) ≡ some (result, s))
      × Whole read_two IsRead 3 result s)
    × ((result : ℤ) × (s : Source) × (write_fix_size 4 read_two 3 (content, []) ≡ some (result, s))
        × Whole read_two IsRead 3 result s)
buffer-Whole_example =
    buffer-Whole read_two IsRead read_two-IsTransfer 3 (omega arith) (content, []) (refl, refl)
