-- ===== src/Tree/Content/Handle/Tests.antt =====
-- A handle of a small tree's file.
use gd2fuse.Base.{◌≡◌, refl, true, false, some, [], ◌∷◌, nat_eq}
use gd2fuse.Node.{set_meta}
use gd2fuse.Outcome.{ok, ◌>>◌}
use gd2fuse.Tree.{done, put}
use gd2fuse.Tree.Samples.{cloud, small, note, meta_of}
use gd2fuse.Tree.Content.{FileHandle}
use gd2fuse.Tree.Content.Handle.{Descriptors, handle_write, handle_close}
use gd2fuse.Tree.Content.Handle.Closing.{closed_handle, handle_close-write}

abbrev descriptors : Descriptors (Unit {0})
descriptors = record {
  read_content = λ fd len offset w. done [] w;
  write_content = λ fd buf offset w. done 2 w;
  close_file = λ fd w. done tt w;
}

abbrev handle : FileHandle
handle = record { node = 3; fd = some 0; changed = false; error = 0 }

handle_close-write_example :
    (handle_write cloud descriptors (7 ∷ 8 ∷ []) 0 >> handle_close cloud descriptors)
      (handle, small)
    ≡ ok tt (
      closed_handle true handle,
      record small { heap = put small.heap 3 (some (set_meta (meta_of "f") note)) },
    )
handle_close-write_example =
    handle_close-write cloud descriptors handle small note refl (7 ∷ 8 ∷ []) [] 0 2 (meta_of "f") tt
      tt tt tt tt refl refl refl refl refl
