-- ===== src/Content.antt =====
-- ContentManager (src/fs/ContentManager.cpp): the names of the local copies, and reading from one; Files
-- has the operations on whole files. The system's calls are parameters.
pub mod Reading
pub mod Names
pub mod Files
mod Tests
use gd2fuse.Base.{
  ℕ, zero, suc, ◌+◌, ◌-◌, Bool, true, false, List, [], ◌∷◌, ◌++◌, ◌==◌, nat_eq, length,
}
use gd2fuse.Outcome.{Outcome, out_of_fuel, Cmd, pure, and_then, ◌>>=◌}

abbrev pub Bytes : Type 0
Bytes = List ℕ

-- id2fileName: the path's elements; an id of more than two bytes goes into two levels of directories
unfoldable pub id2file_name : Bytes → List Bytes
id2file_name [] = []
id2file_name (a ∷ []) = (a ∷ []) ∷ []
id2file_name (a ∷ b ∷ []) = (a ∷ b ∷ []) ∷ []
id2file_name (a ∷ b ∷ c ∷ rest) = (a ∷ []) ∷ (b ∷ []) ∷ (c ∷ rest) ∷ []

-- What `pread` gives: the bytes, or -1 with an errno.
pub data Reads : Type 0 where
  bytes : Bytes → Reads
  failed : ℕ → Reads

abbrev pub eintr : ℕ
eintr = 4

module _ {W : Type 0} (pread : ℕ → ℕ → Cmd W Reads) where
  -- The loop of readContent, with the bytes so far in `buf`; an interrupted call is repeated, and any
  -- other error ends the loop with what there is.
  unfoldable pub read_loop : ℕ → ℕ → ℕ → Bytes → Cmd W Bytes
  read_loop zero len offset buf = λ _. out_of_fuel
  read_loop (suc k) zero offset buf = pure buf
  read_loop (suc k) (suc len) offset buf = do
    readed ← pread (suc len) offset
    elim readed [
      | failed errno ↦ elim (errno == eintr) [
        | true ↦ read_loop k (suc len) offset buf
        | false ↦ pure buf
      ]
      | bytes [] ↦ pure buf
      | bytes (b ∷ bs) ↦
          read_loop k (suc len - length (b ∷ bs)) (offset + length (b ∷ bs)) (buf ++ b ∷ bs)
    ]

  -- readContent: its result is the number of bytes in the buffer
  unfoldable pub read_content : ℕ → ℕ → ℕ → Cmd W Bytes
  unfolding read_loop
  read_content fuel len offset = read_loop fuel len offset []
