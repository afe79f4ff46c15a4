-- ===== src/Tree/Rename.antt =====
-- renameNode of src/fs/AbstractFileSystem.cpp.
pub mod Move
use gd2fuse.Base.{
  ℕ, ◌+◌, String, Bool, true, false, Option, none, some, ◌==◌, nat_eq, if◌then◌else◌,
}
use gd2fuse.Errno.{enoent}
use gd2fuse.Cache.{Ptr}
use gd2fuse.FilePath.{Elements, parent_path, filename}
use gd2fuse.Node.{Node}
use gd2fuse.Outcome.{system_error, Cmd, pure, throw, undefined, and_then, ◌>>=◌, ◌>>◌}
use gd2fuse.Tree.{Backend, Fs, load, store, call}
use gd2fuse.Tree.Lookup.{get_node}
use gd2fuse.Tree.Change.{
  field_name, field_parent, detach_node, attach_node, notify_changed, remove_one,
}

module _ {W : Type 0} where
  -- A pointer that is known to be set, or ENOENT.
  abbrev require : Option Ptr → Cmd (Fs W) Ptr
  require none = throw (system_error enoent "Parent path '%1' not found")
  require (some p) = pure p

  -- `assert(b)`
  abbrev assert : Bool → Cmd (Fs W) (Unit {0})
  assert true = pure tt
  assert false = undefined

  -- the id of the parent, for a change that names it
  unfoldable pub parent_id : Option Ptr → Cmd (Fs W) (Option String)
  unfolding load
  parent_id none = pure none
  parent_id (some p) = do n ← load p; pure (some n.id)

-- The fields that `renameNode` reports as changed.
abbrev pub rename_fields : Ptr → Ptr → ℕ
rename_fields old_parent new_parent =
    if new_parent == old_parent then field_name else field_name + field_parent

module _ (b : Backend) where
  -- `cloudUpdate(*p, fields)`
  unfoldable pub cloud_update : Ptr → ℕ → Cmd (Fs b.World) (Unit {0})
  unfolding load parent_id
  cloud_update p fields = do
    n ← load p
    parent ← parent_id n.parent
    call (b.update n.id fields n.name parent)

  -- `if(!newNode) getNode(newPath.parent_path(),false) else newNode->getParent()`
  new_parent_of : Elements → Option Ptr → Cmd (Fs b.World) (Option Ptr)
  unfolding get_node load
  new_parent_of new_path none = get_node b (parent_path new_path) false
  new_parent_of new_path (some p) = do n ← load p; pure n.parent

  remove_replaced : Ptr → Option Ptr → Cmd (Fs b.World) (Unit {0})
  unfolding remove_one
  remove_replaced parent none = pure tt
  remove_replaced parent (some p) = remove_one b parent p

  -- `oldNode->setName(newPath.filename())`
  unfoldable pub set_name : Ptr → String → Cmd (Fs b.World) (Unit {0})
  unfolding load store
  set_name p name = do n ← load p; store p (record n { name = name })

  -- From `detachNode` to the end, with the four nodes found.
  unfoldable pub move : Ptr → Ptr → Ptr → Option Ptr → String → Cmd (Fs b.World) (Unit {0})
  unfolding detach_node attach_node set_name cloud_update notify_changed remove_replaced
  move old_node old_parent new_parent new_node name = do
    detached ← detach_node old_parent old_node
    assert detached
    set_name old_node name
    attach_node new_parent old_node
    cloud_update old_node (rename_fields old_parent new_parent)
    notify_changed old_node (rename_fields old_parent new_parent)
    remove_replaced new_parent new_node

  unfoldable pub rename_node : Elements → Elements → Cmd (Fs b.World) (Unit {0})
  unfolding get_node new_parent_of load move
  rename_node old_path new_path = do
    old_node ← (do o ← get_node b old_path true; require o)
    new_node ← get_node b new_path false
    new_parent ← (do o ← new_parent_of new_path new_node; require o)
    old ← load old_node
    old_parent ← require old.parent
    move old_node old_parent new_parent new_node (filename new_path)
