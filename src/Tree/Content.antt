-- ===== src/Tree/Content.antt =====
-- openContent, truncate and updateNodeContent of src/fs/AbstractFileSystem.cpp: the local copies of
-- the cloud's files. The time that clock_gettime gives is an argument. The reader of the cloud's media
-- is read to its end when it is made.
pub mod Local
pub mod Freeing
pub mod Handle
use gd2fuse.Base.{
  ℕ, ◌/◌, ◌%◌, String, Bool, true, false, Option, some, List, ◌==◌, nat_eq, if◌then◌else◌,
}
use gd2fuse.Errno.{eisdir}
use gd2fuse.Cache.{Ptr}
use gd2fuse.Node.{is_folder, Timespec, set_time, access_time, set_meta}
use gd2fuse.Outcome.{Cmd, pure, and_then, ◌>>=◌, ◌>>◌}
use gd2fuse.Tree.{Backend, Fs, load, store, call}

abbrev pub o_creat : ℕ
o_creat = 64

abbrev pub o_excl : ℕ
o_excl = 128

-- `flags & bit`, for a power of two
abbrev pub has_flag : ℕ → ℕ → Bool
has_flag flags bit = flags / bit % 2 == 1

-- FileHandle, with `none` for the descriptor -1
pub record FileHandle : Type 0 where
  pub node : Ptr
  pub fd : Option ℕ
  pub changed : Bool
  pub error : ℕ

module _ (b : Backend) where
  -- `cm.createFile(_id,_tree->cloudReadMedia(*this).get())`
  fetch_content : String → Cmd (Fs b.World) (Unit {0})
  fetch_content id = do media ← call (b.read_media id); call (b.content_create id media)

  will_be_created : String → Bool → ℕ → Cmd (Fs b.World) Bool
  will_be_created id exists flags =
      if has_flag flags o_creat
      then (if exists
          then (if has_flag flags o_excl then call (b.content_delete id) else pure false)
          else pure true)
      else pure false

  fetch_unless : String → Bool → Bool → Cmd (Fs b.World) (Unit {0})
  unfolding fetch_content
  fetch_unless id true exists = pure tt
  fetch_unless id false true = pure tt
  fetch_unless id false false = fetch_content id

  unfoldable pub open_content : Timespec → Ptr → ℕ → Cmd (Fs b.World) FileHandle
  unfolding load store will_be_created fetch_unless set_time
  open_content now p flags = do
    n ← load p
    exists ← call (b.content_is n.id)
    created ← will_be_created n.id exists flags
    fetch_unless n.id created exists
    fd ← call (b.content_open n.id flags)
    store p (set_time access_time now n)
    pure (record { node = p; fd = some fd; changed = created; error = 0 })

  unfoldable pub truncate : Ptr → ℕ → Cmd (Fs b.World) ℕ
  unfolding load fetch_unless
  truncate p new_size = do
    n ← load p
    if is_folder n then pure eisdir else (do
      exists ← call (b.content_is n.id)
      fetch_unless n.id false exists
      call (b.content_truncate n.id n.size new_size)
      pure 0)

  unfoldable pub update_node_content : Ptr → Cmd (Fs b.World) (Unit {0})
  unfolding load store
  update_node_content p = do
    n ← load p
    reader ← call (b.content_read n.id)
    call (b.update_media n.id reader)
    m ← call (b.fetch_meta n.id)
    store p (set_meta m n)
