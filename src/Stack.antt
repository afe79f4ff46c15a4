-- ===== src/Stack.antt =====
-- The file systems as FuseGate::run of src/presentation/FuseGate.cpp puts them together: the tree of the
-- provider at the root and the configuration's file system at the control directory, behind the
-- joined one. The methods of IFileSystem are those of AbstractFileSystem; the configuration's are a
-- parameter.
mod Making
mod Cloud
mod Tests
use gd2fuse.Base.{ℕ, String, Bool, true, false, some, ◌==◌, nat_eq, if◌then◌else◌}
use gd2fuse.Cache.{Ptr}
use gd2fuse.FileSystem.{Operations}
use gd2fuse.Node.{Timespec}
use gd2fuse.Joined.{MountPtr, FsPtr}
use gd2fuse.Joined.Routes.{gate_tree}
use gd2fuse.Joined.Ops.{joined}
use gd2fuse.Tree.{Backend, Fs}
use gd2fuse.Tree.Lookup.{get}
use gd2fuse.Tree.Change.{create_node, remove_node}
use gd2fuse.Tree.Rename.{rename_node}
use gd2fuse.Tree.Content.Handle.{Descriptors}
use gd2fuse.Tree.Import.{Source, replace_node, insert_node}

module _ (b : Backend) (cm : Descriptors b.World) (now : Timespec) (rounds : ℕ)
    (source_of : Ptr → Source) where
  -- The virtual methods of AbstractFileSystem; a node of another file system is what it shows.
  abbrev pub tree_operations : Operations (Fs b.World) Ptr
  tree_operations = record {
    get = get b;
    create_node = create_node b;
    remove_node = remove_node b;
    rename_node = rename_node b;
    replace_node = λ path n. replace_node b cm now rounds path (source_of n);
    insert_node = λ path n. insert_node b cm now rounds path (source_of n);
  }

  module _ (conf_fs : Operations (Fs b.World) Ptr) (mount_node : MountPtr → Ptr) (main conf : FsPtr)
      (root_mode : ℕ) (control : String) (conf_mode : ℕ) where
    abbrev pub systems : FsPtr → Operations (Fs b.World) Ptr
    systems f = if f == main then tree_operations else conf_fs

    -- `_fs=jfsf.build()`
    abbrev pub served : Operations (Fs b.World) Ptr
    served = joined systems mount_node (some (gate_tree main conf root_mode control conf_mode))
