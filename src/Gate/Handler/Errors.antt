-- ===== src/Gate/Handler/Errors.antt =====
-- The errors that the handlers answer with.
use gd2fuse.Base.{ℕ, suc, true, false, ◌≡◌, ◌≢◌, none, some, nat_eq, list_eq, string_eq, arith}
use gd2fuse.Errno.{enoent, enotdir}
use gd2fuse.FilePath.{Elements, parent_path}
use gd2fuse.FileSystem.{Operations}
use gd2fuse.Outcome.{Error, ok, threw, fault, system_error}
use gd2fuse.Joined.{MountPtr, FsPtr, Mounts, get_fs}
use gd2fuse.Joined.Ops.{joined}
use gd2fuse.Joined.Ops.Laws.{create-outside, remove-outside, rename-outside}
use gd2fuse.Gate.{
  pos, negated, Nodes, get_inode, open_content, create_file, remove_inode, create_dir, rename,
  open_found, checked, create_unless, create_below,
}
use gd2fuse.Gate.Handler.{
  FileInfo, create_flags, g2f_open, g2f_truncate, g2f_create, g2f_unlink, g2f_mkdir, g2f_rmdir,
  g2f_rename, opened, create_opens, created,
}

module _ {W N H A : Type 0} (fs : Operations W N) (nodes : Nodes W N H A)
    (condition : Error → ℕ) where
  module _ (path : Elements) (n : N) (s u : W) (there : fs.get path s ≡ ok (some n) u)
      (file : nodes.is_folder n u ≡ false) where
    -- For a file that is there, an exception of the node's truncate or of its openContent gets past
    -- the handlers `truncate` and `create`.
    pub truncate_create-threw :
        (w x : W) (e f : Error) (size : ℕ) (fi : FileInfo N H)
        → nodes.truncate n size u ≡ threw e w
        → nodes.open_content n create_flags u ≡ threw f x
        → (g2f_truncate fs nodes condition path size s ≡ threw e w)
          × (g2f_create fs nodes condition path fi s ≡ threw f x)
    unfolding g2f_truncate g2f_create get_inode create_file create_unless create_opens
    truncate_create-threw w x e f size fi h k = (ground arith, ground arith)

    -- If `create` opens a handle that has an error, it deletes the handle, but answers success and
    -- leaves the kernel's handle as it was; `open` of the same file answers that error.
    pub create-hides_error :
        (chn : H) (w x : W) (fi : FileInfo N H) (err : ℕ)
        → nodes.open_content n create_flags u ≡ ok (some chn) w
        → nodes.get_error chn w ≡ suc err
        → nodes.delete chn w ≡ ok tt x
        → fi.flags ≡ create_flags
        → (g2f_create fs nodes condition path fi s
            ≡ ok
                (pos 0, record fi { nonseekable = false; direct_io = nodes.use_direct_io chn w })
                x)
          × (g2f_open fs nodes condition path fi s ≡ ok (negated (suc err), fi) x)
    unfolding g2f_create g2f_open open_content open_found checked opened create_file create_unless
        create_opens created
    create-hides_error chn w x fi err opens failed deleted flags = (ground arith, ground arith)

  -- If neither the file nor its parent directory exists, createFile goes through a null pointer.
  pub create_file-fault :
      (path : Elements) (fi : FileInfo N H) (s u w : W)
      → fs.get path s ≡ ok none u
      → fs.get (parent_path path) u ≡ ok none w
      → g2f_create fs nodes condition path fi s ≡ fault
  unfolding g2f_create create_file create_unless create_below
  create_file-fault path fi s u w missing orphan = ground arith

-- The gate in front of the joined file system.
module _ {W N H A : Type 0} (systems : FsPtr → Operations W N) (mount_node : MountPtr → N)
    (nodes : Nodes W N H A) (condition : Error → ℕ) (t : Mounts) where
  -- A path that is routed to no file system, as a mount point is not: it cannot be removed (ENOENT),
  -- made (ENOTDIR) or renamed (the errno of the library's condition for ENOENT), and nothing changes.
  pub outside_path-errors :
      (path new : Elements) (s : W)
      → get_fs t path ≡ none
      → path ≢ new
      → (g2f_unlink (joined systems mount_node (some t)) nodes condition path s
          ≡ ok (negated enoent) s)
        × (g2f_rmdir (joined systems mount_node (some t)) nodes condition path s
            ≡ ok (negated enoent) s)
        × (g2f_mkdir (joined systems mount_node (some t)) nodes condition path s
            ≡ ok (negated enotdir) s)
        × (g2f_rename (joined systems mount_node (some t)) nodes condition path new s
            ≡ ok (negated (condition (system_error enoent "File '%1' not found"))) s)
  unfolding g2f_unlink g2f_rmdir g2f_mkdir g2f_rename remove_inode create_dir rename
  outside_path-errors path new s outside ne = (
    rw (remove-outside systems mount_node t path outside s),
    rw (remove-outside systems mount_node t path outside s),
    rw (create-outside systems mount_node t path outside s true),
    rw (rename-outside systems mount_node t path outside s new ne),
  )
