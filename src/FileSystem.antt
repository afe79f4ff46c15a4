-- ===== src/FileSystem.antt =====
-- The interface IFileSystem of src/fs/IFileSystem.h: its operations over a state `W` that all file
-- systems share, with nodes `N` (pointers to INode).
use gd2fuse.Base.{Bool, Option}
use gd2fuse.FilePath.{Elements}
use gd2fuse.Outcome.{Cmd}

pub data CreateStatus : Type 0 where
  create_success create_already_exists create_forbidden create_bad_path : CreateStatus

pub data RemoveStatus : Type 0 where
  remove_success remove_not_found remove_forbidden : RemoveStatus

pub record Operations (W N : Type 0) : Type 0 where
  pub get : Elements → Cmd W (Option N)
  pub create_node : Elements → Bool → Cmd W (CreateStatus × Option N)
  pub remove_node : Elements → Cmd W RemoveStatus
  pub rename_node : Elements → Elements → Cmd W (Unit {0})
  pub replace_node : Elements → N → Cmd W (Unit {0})
  pub insert_node : Elements → N → Cmd W (Unit {0})
