-- ===== src/Tree/Change.antt =====
-- createNode, removeNodes, removeNode, detachNode and attachNode of
-- src/fs/AbstractFileSystem.cpp. The notifier's subscribers are the slots of the node cache.
pub mod Create
pub mod CreateNode
pub mod Whole
pub mod Directory
pub mod Remove
use gd2fuse.Base.{
  ℕ, zero, suc, ◌+◌, String, Bool, true, false, not, ◌&&◌, Option, none, some, List, [], ◌∷◌, ◌++◌,
  ◌==◌, nat_eq, if◌then◌else◌,
}
use gd2fuse.Errno.{enoent}
use gd2fuse.Cache.{Ptr, slot_node_removed, slot_node_changed}
use gd2fuse.FilePath.{Elements, skip_root, parent_path, filename}
use gd2fuse.Node.{NodeType, directory, binary, Node, new_node, is_folder, set_meta}
use gd2fuse.FileSystem.{
  CreateStatus, create_success, create_already_exists, RemoveStatus, remove_success,
  remove_not_found,
}
use gd2fuse.Outcome.{
  system_error, out_of_fuel, Cmd, pure, throw, undefined, and_then, ◌>>=◌, ◌>>◌, each,
}
use gd2fuse.Tree.{Backend, Fs, get_fs, load, store, alloc, free, on_cache, call}
use gd2fuse.Tree.Lookup.{find, add_next, clear_next, destroy, get_root, get_node}

-- Node::Field
abbrev pub field_name : ℕ
field_name = 1

abbrev pub field_parent : ℕ
field_parent = 2

-- Without the first occurrence of the pointer.
abbrev pub remove_ptr : Ptr → List Ptr → List Ptr
remove_ptr p [] = []
remove_ptr p (q ∷ qs) = if q == p then qs else q ∷ remove_ptr p qs

abbrev pub contains : List Ptr → Ptr → Bool
contains [] p = false
contains (q ∷ qs) p = if q == p then true else contains qs p

module _ {W : Type 0} where
  -- `detachNode`: whether the node was a child
  unfoldable pub detach_node : Ptr → Ptr → Cmd (Fs W) Bool
  unfolding load store
  detach_node this node = do
    n ← load this
    if contains n.next node
        then (do
          m ← load node
          store node (record m { parent = none })
          t ← load this
          store this (record t { next = remove_ptr node t.next })
          pure true)
        else pure false

  unfoldable pub attach_node : Ptr → Ptr → Cmd (Fs W) (Unit {0})
  unfolding load store
  attach_node this node = do
    n ← load this
    if contains n.next node then pure tt else (do
      m ← load node
      store node (record m { parent = some this })
      t ← load this
      store this (record t { next = t.next ++ node ∷ [] }))

  -- `_notifier->onNodeRemove(*p)`
  unfoldable pub notify_removed : Ptr → Cmd (Fs W) (Unit {0})
  unfolding load slot_node_removed
  notify_removed p = do n ← load p; on_cache (slot_node_removed p n.id)

  -- `_notifier->onNodeChange(*p, fields)`
  unfoldable pub notify_changed : Ptr → ℕ → Cmd (Fs W) (Unit {0})
  unfolding load slot_node_changed
  notify_changed p fields = do n ← load p; on_cache (slot_node_changed p n.id fields)

-- The type of the next entry that `createNode` makes.
abbrev pub entry_type : Elements → Bool → NodeType
entry_type [] is_directory = if is_directory then directory else binary
entry_type (_ ∷ _) is_directory = directory

module _ (b : Backend) where
  -- The loop of `createNode` over the elements that do not exist yet.
  unfoldable pub create_entries : Ptr → Elements → Bool → Cmd (Fs b.World) Ptr
  unfolding load alloc add_next
  create_entries n [] is_directory = pure n
  create_entries n (e ∷ it) is_directory = do
    p ← load n
    let node = record (new_node (some n)) { name = e; file_type = entry_type it is_directory }
    m ← call (b.create_meta e p.id (is_folder node))
    nn ← alloc (set_meta m node)
    add_next n nn
    create_entries nn it is_directory

  unfoldable pub create_node : Elements → Bool → Cmd (Fs b.World) (CreateStatus × Option Ptr)
  unfolding get_root find create_entries
  create_node path is_directory = do
    r ← get_root b
    (n, it) ← find r (skip_root path)
    elim it [
      | [] ↦ pure (create_already_exists, none)
      | e ∷ rest ↦ do q ← create_entries n (e ∷ rest) is_directory; pure (create_success, some q)
    ]

  delete_content : Node → Cmd (Fs b.World) (Unit {0})
  delete_content n = if is_folder n then pure tt else (do _ ← call (b.content_delete n.id); pure tt)

  -- The body of the loop of `removeNodes` for one child, with the recursive call that comes first.
  unfoldable pub remove_entry :
      (Ptr → Cmd (Fs b.World) (Unit {0})) → Ptr → Cmd (Fs b.World) (Unit {0})
  unfolding load delete_content notify_removed
  remove_entry inner p = do
    inner p
    n ← load p
    call (b.remove n.id)
    delete_content n
    notify_removed p

  -- `removeNodes(nullptr)`: the children are removed, and then the list of them is cleared.
  unfoldable pub remove_all : ℕ → Ptr → Cmd (Fs b.World) (Unit {0})
  unfolding load remove_entry clear_next each
  remove_all zero this = λ _. out_of_fuel
  remove_all (suc k) this = do
    n ← load this
    each (remove_entry (remove_all k)) n.next
    clear_next this

  -- `removeNodes(what)`; `_next.erase(end())` of a node that is no child is undefined.
  unfoldable pub remove_one : Ptr → Ptr → Cmd (Fs b.World) (Unit {0})
  unfolding load store remove_entry remove_all destroy
  remove_one this what = do
    n ← load this
    if contains n.next what
        then (do
          s ← get_fs
          remove_entry (remove_all s.fresh) what
          destroy s.fresh what
          t ← load this
          store this (record t { next = remove_ptr what t.next }))
        else undefined

  unfoldable pub remove_node : Elements → Cmd (Fs b.World) RemoveStatus
  unfolding get_node load remove_one
  remove_node path = do
    o ← get_node b path false
    elim o [
      | none ↦ pure remove_not_found
      | some p ↦ do
        n ← load p
        elim n.parent [
          | none ↦ pure remove_not_found
          | some parent ↦ do remove_one parent p; pure remove_success
        ]
    ]
