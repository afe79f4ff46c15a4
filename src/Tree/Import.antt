-- ===== src/Tree/Import.antt =====
-- importNreplace, replaceNode and insertNode of src/fs/AbstractFileSystem.cpp: a copy of a node of
-- another file system. What the methods of that node give is data, a Source, as the other file system
-- does not change during the copy; the name of a copy is the source's (no caller gives another one).
-- The branch for a node of the same file system, which JoinedFileSystem never asks for, is left out.
-- The cloud's answer sets all times of a new node.
pub mod Contents
pub mod Replace
mod Tests
use gd2fuse.Base.{
  ℕ, zero, suc, ◌+◌, String, Bool, true, false, Option, none, some, List, [], ◌∷◌, ◌==◌, nat_eq,
  if◌then◌else◌, length,
}
use gd2fuse.Cache.{Ptr}
use gd2fuse.FilePath.{Elements}
use gd2fuse.Node.{
  NodeType, directory, Node, new_node, is_folder, Timespec, set_time, access_time,
  modification_time, change_time, set_meta,
}
use gd2fuse.Outcome.{
  Outcome, ok, threw, fault, out_of_fuel, system_error, Cmd, pure, throw, undefined, and_then,
  ◌>>=◌, ◌>>◌,
}
use gd2fuse.Tree.{Backend, Fs, get_fs, load, store, alloc, call}
use gd2fuse.Tree.Lookup.{add_next, destroy, get_node}
use gd2fuse.Tree.Change.{contains, remove_ptr, notify_removed, notify_changed}
use gd2fuse.Tree.Content.{FileHandle, o_creat, open_content}
use gd2fuse.Tree.Content.Handle.{Descriptors, Opened, handle_write, handle_close, handle_destroy}

-- What getName, getNodeType and getTime of the source give.
pub record Info : Type 0 where
  pub name : String
  pub file_type : NodeType
  pub access : Timespec
  pub modification : Timespec
  pub change : Timespec

-- What getSize of a file gives, and read and getError of its content: `read` with a length and an
-- offset, with `none` for -1.
pub record SourceContent : Type 0 where
  pub size : ℕ
  pub read : ℕ → ℕ → Option (List ℕ)
  pub error : ℕ

mutual
  pub data Source : Type 0 where
    file : Info → SourceContent → Source
    folder : Info → Sources → Source

  pub data Sources : Type 0 where
    nil : Sources
    cons : Source → Sources → Sources

-- Node's constructor, setName, setFileType and setTime
abbrev pub imported : Ptr → Info → Node
imported this i = set_time change_time i.change (
    set_time modification_time i.modification (
      set_time access_time i.access
        (record (new_node (some this)) { name = i.name; file_type = i.file_type })))

abbrev pub as_folder : Info → Info
as_folder i = record i { file_type = directory }

module _ (b : Backend) (cm : Descriptors b.World) where
  -- The loop over the blocks, for a number of rounds: the offset grows before the block is written.
  unfoldable pub copy_blocks : SourceContent → ℕ → ℕ → Cmd (Opened b) (Unit {0})
  unfolding handle_write
  copy_blocks c zero offset = λ _. out_of_fuel
  copy_blocks c (suc k) offset = elim (c.read 4096 offset) [
    | none ↦ throw (system_error c.error "Can't read imported file '%1'")
    | some [] ↦ pure tt
    | some (x ∷ xs) ↦ do
      _ ← handle_write b cm (x ∷ xs) (offset + length (x ∷ xs))
      copy_blocks c k (offset + length (x ∷ xs))
  ]

  -- The handles are deleted, also at an exception.
  unfoldable pub released : Outcome (Opened b) (Unit {0}) → Outcome (Fs b.World) (Unit {0})
  unfolding handle_destroy
  released (ok _ (h, s)) = handle_destroy b cm h s
  released (threw e (h, s)) = and_then (handle_destroy b cm h s) (λ _. throw e)
  released fault = fault
  released out_of_fuel = out_of_fuel

  module _ (now : Timespec) (rounds : ℕ) where
    copy_content : Ptr → SourceContent → Cmd (Fs b.World) (Unit {0})
    unfolding open_content copy_blocks handle_close released
    copy_content nn c = if c.size == 0 then pure tt else (do
      h ← open_content b now nn o_creat
      (λ s. released ((copy_blocks c rounds 0 >> handle_close b cm) (h, s))))

    -- From `new Node` to `_next.push_back`.
    new_entry : Ptr → Info → Cmd (Fs b.World) Ptr
    unfolding load alloc add_next set_time
    new_entry this i = do
      p ← load this
      m ← call (b.create_meta i.name p.id (is_folder (imported this i)))
      nn ← alloc (set_meta m (imported this i))
      add_next this nn
      pure nn

    unfoldable mutual
      unfolding new_entry copy_content

      pub import_source : Ptr → Source → Cmd (Fs b.World) (Unit {0})
      import_source this (file i c) = do nn ← new_entry this i; copy_content nn c
      import_source this (folder i cs) = do nn ← new_entry this (as_folder i); import_all nn cs

      pub import_all : Ptr → Sources → Cmd (Fs b.World) (Unit {0})
      import_all nn nil = pure tt
      import_all nn (cons c cs) = do import_source nn c; import_all nn cs

    -- `assert(toReplace->_parent==this)`
    assert_parent : Ptr → Option Ptr → Cmd (Fs b.World) (Unit {0})
    assert_parent this none = undefined
    assert_parent this (some p) = if p == this then pure tt else undefined

    -- The old node is removed from the cloud, and erased from its parent's list of owned nodes.
    remove_old : Ptr → Ptr → Cmd (Fs b.World) (Unit {0})
    unfolding load store notify_removed destroy
    remove_old this p = do
      n ← load this
      if contains n.next p
          then (do
            o ← load p
            call (b.remove o.id)
            notify_removed p
            s ← get_fs
            destroy s.fresh p
            t ← load this
            store this (record t { next = remove_ptr p t.next }))
          else pure tt

    -- importNreplace; its result is `true`
    unfoldable pub import_n_replace : Ptr → Source → Option Ptr → Cmd (Fs b.World) Bool
    unfolding load assert_parent remove_old import_source
    import_n_replace this value none = do import_source this value; pure true
    import_n_replace this value (some p) = do
      o ← load p
      assert_parent this o.parent
      remove_old this p
      import_source this value
      pure true

    -- `-1` as the changed fields
    abbrev pub all_fields : ℕ
    all_fields = 4294967295

    changed_node : Ptr → Bool → Cmd (Fs b.World) (Unit {0})
    unfolding notify_changed
    changed_node p true = notify_changed p all_fields
    changed_node p false = pure tt

    unfoldable pub replace_node : Elements → Source → Cmd (Fs b.World) (Unit {0})
    unfolding get_node load import_n_replace changed_node
    replace_node path on_this = do
      o ← get_node b path true
      elim o [
        | none ↦ undefined
        | some p ↦ do
          n ← load p
          elim n.parent [
            | none ↦ undefined
            | some base ↦ do
              changed ← import_n_replace base on_this (some p)
              changed_node p changed
          ]
      ]

    unfoldable pub insert_node : Elements → Source → Cmd (Fs b.World) (Unit {0})
    unfolding get_node import_n_replace
    insert_node parent_path that = do
      o ← get_node b parent_path true
      elim o [ none ↦ undefined | some p ↦ do _ ← import_n_replace p that none; pure tt ]
