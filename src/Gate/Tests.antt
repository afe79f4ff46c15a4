-- ===== src/Gate/Tests.antt =====
-- Concrete runs of the gate: a file system with one file `f`, whose handles all have an error, and
-- whose directory `d` lists it.
use gd2fuse.Base.{
  ℕ, true, false, none, some, [], ◌∷◌, ◌==◌, nat_eq, string_eq, list_eq, if◌then◌else◌,
}
use gd2fuse.Errno.{eacces}
use gd2fuse.FilePath.{Elements}
use gd2fuse.FileSystem.{Operations, create_success}
use gd2fuse.Outcome.{Error, pure, throw, system_error}
use gd2fuse.Gate.{pos, Nodes}
use gd2fuse.Gate.Handler.{
  FileInfo, no_handle, create_flags, g2f_getattr, g2f_opendir, g2f_open, g2f_access, g2f_unlink,
  g2f_mkdir, g2f_rmdir, g2f_rename,
}
use gd2fuse.Gate.Handler.Throws.{CatchesG2f, handlers-CatchesG2f}

abbrev path_f : Elements
path_f = "/" ∷ "f" ∷ []

abbrev broken : Error
broken = system_error eacces "broken"

-- Node 0 is the file, node 1 the directory.
abbrev one_file : Operations ℕ ℕ
one_file = record {
  get = λ p. if p == path_f then pure (some 0) else pure none;
  create_node = λ p d. pure (create_success, some 0);
  remove_node = λ p. throw broken;
  rename_node = λ p q. throw broken;
  replace_node = λ p n. throw broken;
  insert_node = λ p n. throw broken;
}

abbrev node_objects : Nodes ℕ ℕ ℕ ℕ
node_objects = record {
  is_folder = λ n w. n == 1;
  name = λ n w. "f";
  fill_attr = λ n w. 0;
  children = λ n. pure (some (0 ∷ 0 ∷ []));
  open_content = λ n flags. pure (some 5);
  truncate = λ n size. throw broken;
  get_error = λ h w. 13;
  use_direct_io = λ h w. false;
  handle_attr = λ h w. 0;
  read = λ h size offset. pure (pos 0, []);
  write = λ h bytes offset. pure (pos 0);
  flush = λ h. pure 0;
  close = λ h. pure tt;
  delete = λ h. pure tt;
}

abbrev errno_of : Error → ℕ
errno_of e = e.value

abbrev info : FileInfo ℕ ℕ
info = record { flags = create_flags; fh = no_handle; direct_io = true; nonseekable = true }

handlers-CatchesG2f_example :
    CatchesG2f (one_file.get path_f) (g2f_getattr one_file node_objects errno_of path_f)
    × CatchesG2f (one_file.get path_f) (g2f_access one_file node_objects errno_of path_f)
    × CatchesG2f (one_file.get path_f) (g2f_opendir one_file node_objects errno_of path_f info)
    × CatchesG2f (one_file.get path_f) (g2f_open one_file node_objects errno_of path_f info)
    × CatchesG2f (one_file.remove_node path_f) (g2f_unlink one_file node_objects errno_of path_f)
    × CatchesG2f (one_file.remove_node path_f) (g2f_rmdir one_file node_objects errno_of path_f)
    × CatchesG2f
        (one_file.create_node path_f true)
        (g2f_mkdir one_file node_objects errno_of path_f)
    × CatchesG2f
        (one_file.rename_node path_f [])
        (g2f_rename one_file node_objects errno_of path_f [])
handlers-CatchesG2f_example = handlers-CatchesG2f one_file node_objects errno_of path_f [] info
