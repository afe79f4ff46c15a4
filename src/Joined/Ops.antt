-- ===== src/Joined/Ops.antt =====
-- The IFileSystem methods of JoinedFileSystem (src/fs/JoinedFileSystem.cpp), over the mounted file
-- systems. Without mounts there is no root, and getFS goes through a null pointer.
pub mod Laws
pub mod Rename
pub mod Provider
use gd2fuse.Base.{
  ℕ, String, Bool, true, false, Option, none, some, List, [], ◌∷◌, ◌++◌, ◌==◌, nat_eq, string_eq,
  list_eq, if◌then◌else◌,
}
use gd2fuse.Errno.{enoent, eperm}
use gd2fuse.FilePath.{Elements, root_path, skip_root, parent_path, from_path_it}
use gd2fuse.FileSystem.{Operations, CreateStatus, create_bad_path, RemoveStatus, remove_not_found}
use gd2fuse.Outcome.{Outcome, system_error, Cmd, pure, throw, undefined, and_then, ◌>>=◌, ◌>>◌}
use gd2fuse.Joined.{MountPtr, FsPtr, Mounts, Best, mount_root, find_mount_point, get_fs}

module _ {W N : Type 0} (systems : FsPtr → Operations W N) (mount_node : MountPtr → N) where
  -- A file system of the joined one, with a path inside of it.
  abbrev pub Target : Type 0
  Target = FsPtr × Elements

  target : Option Mounts → Elements → Cmd W (Option Target)
  unfolding get_fs
  target none path = undefined
  target (some t) path = pure (get_fs t path)

  -- The node of a mount point, or of the file system that is mounted there.
  found : Mounts → Best → Cmd W (Option N)
  unfolding from_path_it
  found t (none, it) = pure none
  found t (some p, []) = pure (some (mount_node p))
  found t (some p, e ∷ it) = elim (t.node p).fs [
    | none ↦ undefined
    | some fs ↦ (systems fs).get (root_path ++ from_path_it (e ∷ it))
  ]

  unfoldable pub joined_get : Option Mounts → Elements → Cmd W (Option N)
  unfolding found find_mount_point
  joined_get none path = pure none
  joined_get (some t) path =
      if path == root_path
      then pure (some (mount_node mount_root))
      else found t (find_mount_point t mount_root (skip_root path))

  unfoldable pub joined_create : Option Mounts → Elements → Bool → Cmd W (CreateStatus × Option N)
  unfolding target
  joined_create mounts path is_directory = do
    o ← target mounts path
    elim o [
      | none ↦ pure (create_bad_path, none)
      | some (fs, rest) ↦ (systems fs).create_node rest is_directory
    ]

  unfoldable pub joined_remove : Option Mounts → Elements → Cmd W RemoveStatus
  unfolding target
  joined_remove mounts path = do
    o ← target mounts path
    elim o [ none ↦ pure remove_not_found | some (fs, rest) ↦ (systems fs).remove_node rest ]

  -- `if(rest.empty()) throw`
  abbrev not_mount_point : Elements → Cmd W (Unit {0})
  not_mount_point [] = throw (system_error eperm "Can't rename mountpoint '%1'")
  not_mount_point (_ ∷ _) = pure tt

  -- The file system that is left by a rename, with the path and the node there.
  source : Option Mounts → Elements → Cmd W (Target × N)
  unfolding target
  source mounts path = do
    o ← target mounts path
    elim o [
      | none ↦ throw (system_error enoent "File '%1' not found")
      | some (fs, rest) ↦ do
        n ← (systems fs).get rest
        elim n [
          | none ↦ throw (system_error enoent "File '%1' not found")
          | some node ↦ do not_mount_point rest; pure ((fs, rest), node)
        ]
    ]

  destination : Option Mounts → Elements → Cmd W Target
  unfolding target
  destination mounts path = do
    o ← target mounts path
    elim o [
      | none ↦ throw (system_error enoent "File '%1' out of file system")
      | some (fs, rest) ↦ do not_mount_point rest; pure (fs, rest)
    ]

  -- The copy to another file system: over the node that is there, or into its parent.
  unfoldable pub copy : Target → N → Cmd W (Unit {0})
  copy (fs, rest) node = do
    n ← (systems fs).get rest
    elim n [
      | some _ ↦ (systems fs).replace_node rest node
      | none ↦ (systems fs).insert_node (parent_path rest) node
    ]

  transfer : Target → N → Target → Cmd W (Unit {0})
  unfolding copy
  transfer (old_fs, old_rest) node (new_fs, new_rest) =
      if old_fs == new_fs
      then (systems new_fs).rename_node old_rest new_rest
      else (do copy (new_fs, new_rest) node; _ ← (systems old_fs).remove_node old_rest; pure tt)

  unfoldable pub joined_rename : Option Mounts → Elements → Elements → Cmd W (Unit {0})
  unfolding source destination transfer
  joined_rename mounts old_path new_path = if old_path == new_path then pure tt else (do
    (old, node) ← source mounts old_path
    new ← destination mounts new_path
    transfer old node new)

  -- The target of replaceNode and insertNode.
  inside : Option Mounts → Elements → Cmd W Target
  unfolding target
  inside mounts path = do
    o ← target mounts path
    elim o [ none ↦ throw (system_error enoent "Entry lay out of filesystem") | some t ↦ pure t ]

  unfoldable pub joined_replace : Option Mounts → Elements → N → Cmd W (Unit {0})
  unfolding inside
  joined_replace mounts path on_this = do
    (fs, rest) ← inside mounts path
    (systems fs).replace_node rest on_this

  unfoldable pub joined_insert : Option Mounts → Elements → N → Cmd W (Unit {0})
  unfolding inside
  joined_insert mounts path that = do
    (fs, rest) ← inside mounts path
    (systems fs).insert_node rest that

  -- The joined file system is a file system again.
  unfoldable pub joined : Option Mounts → Operations W N
  unfolding joined_get joined_create joined_remove joined_rename joined_replace joined_insert
  joined mounts = record {
    get = joined_get mounts;
    create_node = joined_create mounts;
    remove_node = joined_remove mounts;
    rename_node = joined_rename mounts;
    replace_node = joined_replace mounts;
    insert_node = joined_insert mounts;
  }
