-- ===== src/Content/Tests.antt =====
-- A file of four bytes that is read one byte at a time.
use gd2fuse.Base.{ℕ, zero, suc, ◌≡◌, ◌≤◌, ◌<◌, refl, [], ◌∷◌, length, take, drop, arith}
use gd2fuse.Outcome.{ok, Cmd, pure}
use gd2fuse.Content.{Bytes, Reads, bytes, read_content}
use gd2fuse.Content.Reading.{IsFile, read_content-file}

abbrev four : Bytes
four = 10 ∷ 20 ∷ 30 ∷ 40 ∷ []

-- One byte at a time, where there is one.
abbrev one_of : ℕ → Bytes → ℕ
one_of zero rest = 0
one_of (suc len) [] = 0
one_of (suc len) (b ∷ rest) = 1

abbrev pread : ℕ → ℕ → Cmd ℕ Reads
pread len offset = pure (bytes (take (one_of len (drop offset four)) (drop offset four)))

one_of-asked : (len : ℕ) (rest : Bytes) → one_of len rest ≤ len
one_of-asked zero rest = omega arith
one_of-asked (suc len) [] = omega arith
one_of-asked (suc len) (b ∷ rest) = omega arith

one_of-inside : (len : ℕ) (rest : Bytes) → one_of len rest ≤ length rest
one_of-inside zero rest = omega arith
one_of-inside (suc len) [] = omega arith
one_of-inside (suc len) (b ∷ rest) = omega arith

one_of-ends : (len : ℕ) (rest : Bytes) → 0 < len → one_of len rest ≡ 0 → rest ≡ []
one_of-ends zero rest h e = absurd (omega arith)
one_of-ends (suc len) [] h e = refl
one_of-ends (suc len) (b ∷ rest) h e = absurd (omega arith)

pread-IsFile : IsFile pread four
pread-IsFile = record {
  given = λ len offset. one_of len (drop offset four);
  reads = λ len offset w. refl;
  asked = λ len offset. one_of-asked len (drop offset four);
  inside = λ len offset. one_of-inside len (drop offset four);
  ends = λ len offset. one_of-ends len (drop offset four);
}

read_content-file_example : read_content pread 4 3 1 7 ≡ ok (20 ∷ 30 ∷ 40 ∷ []) 7
read_content-file_example = read_content-file pread four pread-IsFile 7 4 3 1 (omega arith)
