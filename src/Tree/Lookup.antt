-- ===== src/Tree/Lookup.antt =====
-- Node::find, fillDir, getRoot, get and getNode of src/fs/AbstractFileSystem.cpp.
pub mod Deepest
pub mod Get
pub mod Fill
use gd2fuse.Base.{
  ℕ, zero, suc, ◌-◌, String, Bool, true, false, Option, none, some, List, [], ◌∷◌, ◌++◌, ◌==◌,
  nat_eq, string_eq, list_eq, if◌then◌else◌, length, take,
}
use gd2fuse.Errno.{enoent}
use gd2fuse.Cache.{Ptr, find_by_path, add}
use gd2fuse.FilePath.{Elements, root_path, skip_root, ◌/=◌, from_path_it}
use gd2fuse.Node.{Node, new_node, is_folder, set_meta}
use gd2fuse.Outcome.{system_error, ok, out_of_fuel, Cmd, pure, throw, and_then, ◌>>=◌, ◌>>◌, each}
use gd2fuse.Tree.{Backend, Fs, get_fs, load, store, alloc, free, on_cache, call}

module _ {W : Type 0} where
  abbrev set_root : Ptr → Cmd (Fs W) (Unit {0})
  set_root r s = ok tt (record s { root = some r })

  -- `std::find_if` over the children, by name
  unfoldable pub find_child : List Ptr → String → Cmd (Fs W) (Option Ptr)
  unfolding load
  find_child [] name = pure none
  find_child (p ∷ ps) name = do
    n ← load p
    if n.name == name then pure (some p) else find_child ps name

  -- The node that is reached, and the elements that are left.
  unfoldable pub find : Ptr → Elements → Cmd (Fs W) (Ptr × Elements)
  unfolding find_child load
  find p [] = pure (p, [])
  find p (e ∷ it) = do
    n ← load p
    o ← find_child n.next e
    elim o [ none ↦ pure (p, e ∷ it) | some q ↦ find q it ]

  -- `_next.push_back(value)`
  unfoldable pub add_next : Ptr → Ptr → Cmd (Fs W) (Unit {0})
  unfolding load store
  add_next p value = do n ← load p; store p (record n { next = n.next ++ value ∷ [] })

  -- `delete p`: the node's list of owned children goes with it
  unfoldable pub destroy : ℕ → Ptr → Cmd (Fs W) (Unit {0})
  unfolding load free each
  destroy zero p = λ _. out_of_fuel
  destroy (suc k) p = do n ← load p; each (destroy k) n.next; free p

  unfoldable pub clear_next : Ptr → Cmd (Fs W) (Unit {0})
  unfolding destroy
  clear_next p = do
    s ← get_fs
    n ← load p
    each (destroy s.fresh) n.next
    m ← load p
    store p (record m { next = [] })

module _ (b : Backend) where
  fill_entry : Ptr → String → Cmd (Fs b.World) (Unit {0})
  unfolding add_next alloc
  fill_entry dir id = do
    m ← call (b.fetch_meta id)
    p ← alloc (set_meta m (record (new_node (some dir)) { id = id }))
    add_next dir p

  -- `dir->_next.clear(); dir->_dirFilled=false;`
  forget_children : Ptr → Node → Cmd (Fs b.World) (Unit {0})
  unfolding clear_next load store
  forget_children dir n =
      if n.dir_filled
      then (do clear_next dir; m ← load dir; store dir (record m { dir_filled = false }))
      else pure tt

  fill_folder : Ptr → Node → Cmd (Fs b.World) (Unit {0})
  unfolding forget_children fill_entry load store each
  fill_folder dir n = do
    forget_children dir n
    ids ← call (b.fetch_children n.id)
    each (fill_entry dir) ids
    m ← load dir
    store dir (record m { dir_filled = true })

  unfoldable pub fill_dir : Ptr → Cmd (Fs b.World) (Unit {0})
  unfolding fill_folder load
  fill_dir dir = do n ← load dir; if is_folder n then fill_folder dir n else pure tt

  unfoldable pub get_root : Cmd (Fs b.World) Ptr
  unfolding load store alloc
  get_root = do
    s ← get_fs
    elim s.root [
      | some r ↦ pure r
      | none ↦ do
        r ← alloc (record (new_node none) { id = "root" })
        set_root r
        m ← call (b.fetch_meta "root")
        n ← load r
        store r (record (set_meta m n) { id = "root"; name = "/" })
        pure r
    ]

  -- The loop of `get`: `before` and the elements that are left make up the path.
  unfoldable pub descend : Elements → Ptr → Elements → Cmd (Fs b.World) (Option Ptr)
  unfolding fill_dir find_child load
  descend before p [] = pure (some p)
  descend before p (e ∷ it) = do
    n ← load p
    elim (is_folder n) [
      | false ↦ pure none
      | true ↦ do
        fill_dir p
        m ← load p
        o ← find_child m.next e
        elim o [
          | none ↦ pure none
          | some q ↦ do
            c ← load q
            on_cache (add (from_path_it (before /= e)) c.id q)
            descend (before /= e) q it
        ]
    ]

  -- The part of the path before the elements that are left.
  abbrev consumed : Elements → Elements → Elements
  consumed path it = take (length path - length it) path

  unfoldable pub get : Elements → Cmd (Fs b.World) (Option Ptr)
  unfolding get_root find descend find_by_path add
  get path = if path == root_path then (do r ← get_root; pure (some r)) else (do
    s ← get_fs
    elim (find_by_path path s.cache) [
      | some p ↦ pure (some p)
      | none ↦ do
        r ← get_root
        (p, it) ← find r (skip_root path)
        n ← load p
        elim it [
          | [] ↦ do on_cache (add path n.id p); pure (some p)
          | e ∷ rest ↦
              if n.dir_filled then pure none else descend (consumed path (e ∷ rest)) p (e ∷ rest)
        ]
    ])

  unfoldable pub get_node : Elements → Bool → Cmd (Fs b.World) (Option Ptr)
  unfolding get
  get_node path throw_if_missed = do
    o ← get path
    elim o [
      | some p ↦ pure (some p)
      | none ↦
          if throw_if_missed then throw (system_error enoent "Path '%1' not found") else pure none
    ]
