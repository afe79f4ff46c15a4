-- ===== src/Tree/Import/Tests.antt =====
-- Copies of another file system's nodes into a small tree.
use gd2fuse.Base.{
  ℕ, zero, suc, ◌≡◌, ◌≢◌, refl, arith, true, false, List, Option, some, [], ◌∷◌, nat_eq, length,
  string_eq, list_eq,
}
use gd2fuse.FilePath.{Elements}
use gd2fuse.Cache.{find_by_path, add, empty}
use gd2fuse.Base.Dict.{lookup}
use gd2fuse.Node.{binary}
use gd2fuse.Outcome.{ok}
use gd2fuse.Tree.{done, Fs}
use gd2fuse.Tree.Samples.{cloud, cloud_over, small, small_heap, folder, note, noon}
use gd2fuse.Tree.Heap.{resolve, child_named}
use gd2fuse.Tree.Lookup.{get, get_node}
use gd2fuse.Tree.Change.{contains}
use gd2fuse.Tree.Content.{FileHandle}
use gd2fuse.Tree.Content.Handle.{Descriptors}
use gd2fuse.Tree.Import.{Info, SourceContent, file, copy_blocks, replace_node}
use gd2fuse.Tree.Import.Contents.{copy_blocks-shifted}
use gd2fuse.Tree.Import.Replace.{replace_node-never}

-- A world that keeps the writes, the last one first.
abbrev Log : Type 0
Log = List (ℕ × List ℕ)

abbrev descriptors : Descriptors Log
descriptors = record {
  read_content = λ fd len offset w. done [] w;
  write_content = λ fd buf offset w. done (length buf) ((offset, buf) ∷ w);
  close_file = λ fd w. done tt w;
}

-- A file of three bytes, which another file system gives in blocks of two and one.
abbrev three_bytes : ℕ → ℕ → Option (List ℕ)
three_bytes len zero = some (7 ∷ 8 ∷ [])
three_bytes len (suc zero) = some (8 ∷ 9 ∷ [])
three_bytes len (suc (suc zero)) = some (9 ∷ [])
three_bytes len (suc (suc (suc at))) = some []

abbrev three : SourceContent
three = record { size = 3; read = three_bytes; error = 0 }

abbrev handle : FileHandle
handle = record { node = 3; fd = some 0; changed = false; error = 0 }

abbrev logged : Fs Log
logged = record { heap = small_heap; fresh = 4; root = some 0; cache = empty; world = [] }

copy_blocks-shifted_example :
    copy_blocks (cloud_over Log) descriptors three 4 0 (handle, logged)
    ≡ ok tt (
      record handle { changed = true },
      record logged { world = (3, 9 ∷ []) ∷ (2, 7 ∷ 8 ∷ []) ∷ [] },
    )
copy_blocks-shifted_example =
    copy_blocks-shifted (cloud_over Log) descriptors (λ fd buf at w. (at, buf) ∷ w) three
      ((7 ∷ 8 ∷ []) ∷ (9 ∷ []) ∷ []) 4 0 handle logged (omega arith) (refl, (refl, refl))
      (λ buf at w. refl)

abbrev unlogged : Descriptors (Unit {0})
unlogged = record {
  read_content = λ fd len offset w. done [] w;
  write_content = λ fd buf offset w. done (length buf) w;
  close_file = λ fd w. done tt w;
}

abbrev info : Info
info = record { name = "f"; file_type = binary; access = noon; modification = noon; change = noon }

abbrev path_f : Elements
path_f = "/" ∷ "a" ∷ "f" ∷ []

abbrev found : Fs (Unit {0})
found = record small { cache = add path_f "f" 3 empty }

small-get_node : get_node cloud path_f true small ≡ ok (some 3) found
unfolding get_node get find_by_path resolve child_named lookup string_eq list_eq
small-get_node = refl

note_listed : contains (3 ∷ []) 3 ≡ true
unfolding nat_eq
note_listed = refl

replace_node-never_example :
    replace_node cloud unlogged noon 9 path_f (file info three) small ≢ ok tt found
replace_node-never_example =
    replace_node-never cloud unlogged 3 noon 9 path_f (file info three) 1 note
      (folder (some 0) "a" (3 ∷ [])) small found found small-get_node (omega arith) refl refl refl
      note_listed
