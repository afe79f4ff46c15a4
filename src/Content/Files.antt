-- ===== src/Content/Files.antt =====
-- The operations of ContentManager (src/fs/ContentManager.cpp) on whole files: is, openFile, closeFile,
-- writeContent, truncateFile, createFile, deleteFile and the reader of a file. The system's calls and
-- boost's operations are parameters; the path of the working directory is left out of the names.
pub mod Copying
mod Tests
use gd2fuse.Base.{
  ℕ, zero, suc, String, Bool, true, false, not, Option, none, some, ◌⊎◌, inl, inr, List, [], ◌∷◌,
  if◌then◌else◌,
}
use gd2fuse.Errno.{enoent}
use gd2fuse.Outcome.{
  Error, system_error, Outcome, ok, threw, fault, out_of_fuel, Cmd, pure, throw, and_then, ◌>>=◌,
  ◌>>◌,
}
use gd2fuse.Content.{Bytes, id2file_name}

-- What a call of the system gives: a number, or -1 with an errno.
pub data Result : Type 0 where
  success : ℕ → Result
  failure : ℕ → Result

abbrev pub FileName : Type 0
FileName = List Bytes

-- The calls, on a state of the disk.
pub record Calls (D : Type 0) : Type 0 where
  pub exists : FileName → D → Bool
  pub create_directories : FileName → Cmd D (Unit {0})
  pub open_path : FileName → ℕ → D → Result × D
  pub creat : FileName → D → Result × D
  pub close : ℕ → D → D
  pub write : ℕ → Bytes → D → Result × D
  pub pwrite : ℕ → Bytes → ℕ → D → Result × D
  pub truncate : FileName → ℕ → D → Result × D
  pub remove : FileName → D → Option Error × D

-- parent_path
abbrev pub parent_path : FileName → FileName
parent_path [] = []
parent_path (e ∷ []) = []
parent_path (e ∷ f ∷ p) = e ∷ parent_path (f ∷ p)

abbrev pub checked : {D : Type 0} → String → Result × D → Outcome D ℕ
checked detail (success n, d) = ok n d
checked detail (failure errno, d) = threw (system_error errno detail) d

-- ContentManager::IReader, over a state of its own
pub record IReader (R : Type 0) : Type 0 where
  pub done : R → Bool
  pub read : ℕ → Cmd R Bytes
  pub error : R → Option Error

-- feof and fread of the C library
pub record Stdio (F : Type 0) : Type 0 where
  pub feof : F → Bool
  pub fread : ℕ → F → Bytes × F

-- ContentReader: the reader of a local copy, whose errors are not told
unfoldable pub content_reader : {F : Type 0} → Stdio F → IReader F
content_reader lib = record {
  done = lib.feof;
  read = λ size f. ok (lib.fread size f).0 (lib.fread size f).1;
  error = λ f. none;
}

abbrev pub told : {S : Type 0} → Option Error → Cmd S (Unit {0})
told none s = ok tt s
told (some e) s = threw e s

module _ {D : Type 0} (sys : Calls D) where
  unfoldable pub is : Bytes → D → Bool
  is id d = sys.exists (id2file_name id) d

  unfoldable pub open_file : Bytes → ℕ → Cmd D ℕ
  open_file id flags d =
      checked "Media manager: can not open file '%1'" (sys.open_path (id2file_name id) flags d)

  unfoldable pub close_file : ℕ → Cmd D (Unit {0})
  close_file fd d = ok tt (sys.close fd d)

  unfoldable pub write_content : ℕ → Bytes → ℕ → Cmd D ℕ
  write_content fd buf offset d =
      checked "Media manager: error writing content to open file" (sys.pwrite fd buf offset d)

  -- truncateFile, which does not use the file's size
  unfoldable pub truncate_file : Bytes → ℕ → ℕ → Cmd D (Unit {0})
  truncate_file id size new_size d =
      if not (sys.exists (id2file_name id) d)
      then threw (system_error enoent "Media manager: attempt to open non existent file '%1'") d
      else and_then
          (checked "Media manager: error truncate file '%1'"
            (sys.truncate (id2file_name id) new_size d))
          (λ _. pure tt)

  abbrev deleted : Option Error × D → Outcome D Bool
  deleted (none, d) = ok true d
  deleted (some e, d) = threw e d

  unfoldable pub delete_file : Bytes → Cmd D Bool
  delete_file id d =
      if sys.exists (id2file_name id) d
      then deleted (sys.remove (id2file_name id) d)
      else ok false d

  -- readContent with an id: the file that fopen gives, or an errno
  unfoldable pub open_reader : {F : Type 0} → (FileName → D → (F ⊎ ℕ) × D) → Bytes → Cmd D F
  open_reader fopen id d =
      if not (sys.exists (id2file_name id) d)
      then threw
          (system_error enoent "Media manager: attempt to read content of non existent file '%1'") d
      else elim (fopen (id2file_name id) d).0 [
        | inl f ↦ ok f (fopen (id2file_name id) d).1
        | inr errno ↦
            threw (system_error errno "Media manager: can not open file '%1' for reading")
              (fopen (id2file_name id) d).1
      ]

  module _ {R : Type 0} where
    -- a call of the reader, and one of the disk
    abbrev of_reader : {A : Type 0} → R × D → Outcome R A → Outcome (R × D) A
    of_reader s (ok a r) = ok a (r, s.1)
    of_reader s (threw e r) = threw e (r, s.1)
    of_reader s fault = fault
    of_reader s out_of_fuel = out_of_fuel

    abbrev of_disk : {A : Type 0} → R × D → Outcome D A → Outcome (R × D) A
    of_disk s (ok a d) = ok a (s.0, d)
    of_disk s (threw e d) = threw e (s.0, d)
    of_disk s fault = fault
    of_disk s out_of_fuel = out_of_fuel

  module _ {R : Type 0} (content : IReader R) where
    -- `content->read(buf,sizeof(buf))`
    abbrev pub next_block : Cmd (R × D) Bytes
    next_block s = of_reader s (content.read 4096 s.0)

    -- `write(fd,buf,readed)`: how much has been written is not looked at
    abbrev pub write_block : ℕ → Bytes → Cmd (R × D) (Unit {0})
    write_block fd buf s = of_disk s (
        and_then
          (checked "Media manager: Error writing content into file '%1'" (sys.write fd buf s.1))
          (λ _. pure tt))

    -- the loop, for a number of rounds
    unfoldable pub copy_loop : ℕ → ℕ → Cmd (R × D) (Unit {0})
    copy_loop zero fd s = out_of_fuel
    copy_loop (suc k) fd s =
        let rest = copy_loop k fd in
        if content.done s.0 then ok tt s else (next_block >>= λ buf. write_block fd buf >> rest) s

    -- `content->error()`, asked behind the loop
    abbrev pub reader_error : Cmd (R × D) (Unit {0})
    reader_error s = told (content.error s.0) s

  module _ {R : Type 0} where
    copied : Option (IReader R) → ℕ → ℕ → Cmd (R × D) (Unit {0})
    unfolding copy_loop
    copied none k fd = pure tt
    copied (some content) k fd = copy_loop content k fd >> reader_error content

    -- AutocloseableHandler's destructor
    abbrev pub closed : ℕ → Outcome (R × D) (Unit {0}) → Outcome (R × D) (Unit {0})
    closed fd (ok a s) = ok a (s.0, sys.close fd s.1)
    closed fd (threw e s) = threw e (s.0, sys.close fd s.1)
    closed fd fault = fault
    closed fd out_of_fuel = out_of_fuel

    -- `fs::create_directories` below its condition
    abbrev pub make_parent : FileName → Cmd (R × D) (Unit {0})
    make_parent file_name s =
        if not (sys.exists (parent_path file_name) s.1)
        then of_disk s (sys.create_directories (parent_path file_name) s.1)
        else ok tt s

    copy_into : Option (IReader R) → ℕ → R → Result × D → Outcome (R × D) (Unit {0})
    unfolding copied
    copy_into content k r (failure errno, d) =
        threw (system_error errno "Media manager: Error creating file '%1'") (r, d)
    copy_into content k r (success fd, d) = closed fd (copied content k fd (r, d))

    -- createFile, with a reader that may be null
    unfoldable pub create_file : ℕ → Bytes → Option (IReader R) → Cmd (R × D) (Unit {0})
    unfolding copy_into
    create_file k id content =
        make_parent (id2file_name id)
        >> (λ s. copy_into content k s.0 (sys.creat (id2file_name id) s.1))
