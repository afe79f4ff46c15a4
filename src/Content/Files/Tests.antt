-- ===== src/Content/Files/Tests.antt =====
-- A reader of two blocks, and a disk with one file whose `write` takes two bytes at once.
use gd2fuse.Base.{
  ℕ, refl, sym, ap, ◌∙◌, Bool, true, false, none, some, List, [], ◌∷◌, ◌++◌, length, take, arith,
}
use gd2fuse.Outcome.{ok, Cmd, pure}
use gd2fuse.Content.{Bytes}
use gd2fuse.Content.Files.{Result, success, Calls, IReader, create_file}
use gd2fuse.Content.Files.Copying.{Left, FileLaws, parts, create_file-Left}

abbrev is_done : List Bytes → Bool
is_done [] = true
is_done (_ ∷ _) = false

abbrev first_of : Cmd (List Bytes) Bytes
first_of [] = ok [] []
first_of (b ∷ bs) = ok b bs

abbrev block_reader : IReader (List Bytes)
block_reader = record { done = is_done; read = λ size. first_of; error = λ r. none }

abbrev small_disk : Calls Bytes
small_disk = record {
  exists = λ p d. true;
  create_directories = λ p. pure tt;
  open_path = λ p flags d. (success 3, d);
  creat = λ p d. (success 3, []);
  close = λ fd d. d;
  write = λ fd b d. (success 2, d ++ take 2 b);
  pwrite = λ fd b offset d. (success (length b), d);
  truncate = λ p n d. (success 0, d);
  remove = λ p d. (none, []);
}

abbrev taken : Result → ℕ
taken (success n) = n
taken _ = 0

small_disk-FileLaws : FileLaws small_disk (λ fd d. d)
small_disk-FileLaws = record {
  creat_lem = λ p fd d d' h. sym (ap (λ (x : Result × Bytes). x.1) h);
  write_lem = λ fd n b d d' h.
      sym (ap (λ (x : Result × Bytes). x.1) h)
      ∙ ap (λ m. d ++ take m b) (ap (λ (x : Result × Bytes). taken x.0) h);
}

abbrev given : List Bytes
given = (1 ∷ 2 ∷ 3 ∷ []) ∷ (4 ∷ 5 ∷ []) ∷ []

create_file-Left_example :
    Left small_disk block_reader
      (λ fd d. d)
      small_disk-FileLaws
      3
      (parts given (2 ∷ 2 ∷ []))
      []
      (1 ∷ 2 ∷ 4 ∷ 5 ∷ [])
      (create_file small_disk 3 (b'a' ∷ []) (some block_reader) (given, []))
create_file-Left_example =
    create_file-Left small_disk block_reader (λ fd d. d) small_disk-FileLaws 3 3 (b'a' ∷ []) given
      (2 ∷ 2 ∷ []) given [] [] [] [] (1 ∷ 2 ∷ 4 ∷ 5 ∷ []) (omega arith) refl refl
      (refl, _, refl, (refl, _, refl, (refl, refl))) (_, refl, (_, refl, refl))
