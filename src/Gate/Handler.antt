-- ===== src/Gate/Handler.antt =====
-- The handlers of src/presentation/handler.cpp: what the kernel's calls are answered with. The calls
-- that are not implemented answer -ENOSYS.
pub mod Errors
pub mod Throws
pub mod Listing
use gd2fuse.Base.{
  ℕ, zero, suc, ◌+◌, String, Bool, true, false, Option, none, some, List, [], ◌∷◌, ◌==◌, nat_eq,
  if◌then◌else◌,
}
use gd2fuse.Errno.{enoent, enomem, enotdir, eisdir, enosys}
use gd2fuse.FilePath.{Elements}
use gd2fuse.FileSystem.{Operations}
use gd2fuse.Outcome.{Error, Outcome, Cmd, pure, undefined, and_then, ◌>>=◌, ◌>>◌}
use gd2fuse.Gate.{
  ℤ, pos, negsuc, negated, Nodes, ask, get_inode, open_content, create_file, remove_inode,
  create_dir, rename,
}

-- `fi->fh`: a pointer to a node or to a content handle, as an integer
pub data FileHandle (N H : Type 0) : Type 0 where
  no_handle : FileHandle N H
  node_handle : N → FileHandle N H
  content_handle : H → FileHandle N H

-- fuse_file_info, as far as the handlers use it
pub record FileInfo (N H : Type 0) : Type 0 where
  pub flags : ℕ
  pub fh : FileHandle N H
  pub direct_io : Bool
  pub nonseekable : Bool

-- `O_CREAT|O_WRONLY|O_TRUNC`
abbrev pub create_flags : ℕ
create_flags = 64 + 1 + 512

-- The handlers without an implementation.
pub data Unimplemented : Type 0 where
  utimens readlink mknod symlink link chmod chown statfs fsync fsyncdir : Unimplemented

abbrev pub unimplemented : Unimplemented → ℤ
unimplemented _ = negated enosys

module _ {W N H A : Type 0} (fs : Operations W N) (nodes : Nodes W N H A)
    (condition : Error → ℕ) where
  abbrev pub Info : Type 0
  Info = FileInfo N H

  -- the content handle behind `fi->fh`; another value of it is no valid pointer
  content_of : Info → Cmd W H
  content_of fi = elim fi.fh [
    | no_handle ↦ undefined
    | node_handle _ ↦ undefined
    | content_handle chn ↦ pure chn
  ]

  unfoldable pub g2f_getattr : Elements → Cmd W (ℤ × Option A)
  unfolding get_inode
  g2f_getattr path = do
    o ← get_inode fs nodes condition path
    elim o [
      | none ↦ pure (negated enoent, none)
      | some n ↦ do a ← ask (nodes.fill_attr n); pure (pos 0, some a)
    ]

  unfoldable pub g2f_opendir : Elements → Info → Cmd W (ℤ × Info)
  unfolding get_inode
  g2f_opendir path fi = do
    o ← get_inode fs nodes condition path
    elim o [
      | none ↦ pure (negated enoent, fi)
      | some n ↦ do
        folder ← ask (nodes.is_folder n)
        if folder
            then pure (pos 0, record fi { fh = node_handle n })
            else pure (negated enotdir, fi)
    ]

  module _ {B : Type 0} (filler : B → String → A → B × Bool) where
    -- The loop of readdir: `filler` gives the buffer, and whether it is full.
    fill_loop : B → List N → Cmd W (ℤ × B)
    fill_loop buf [] = pure (pos 0, buf)
    fill_loop buf (n ∷ ns) = do
      name ← ask (nodes.name n)
      stat ← ask (nodes.fill_attr n)
      let (buf', full) = filler buf name stat
      if full then pure (negated enomem, buf') else fill_loop buf' ns

    read_folder : B → N → Cmd W (ℤ × B)
    unfolding fill_loop
    read_folder buf n = do
      folder ← ask (nodes.is_folder n)
      if folder
          then (do
            reader ← nodes.children n
            elim reader [ none ↦ pure (pos 0, buf) | some ns ↦ fill_loop buf ns ])
          else pure (negated enotdir, buf)

    unfoldable pub g2f_readdir : B → Info → Cmd W (ℤ × B)
    unfolding read_folder
    g2f_readdir buf fi = elim fi.fh [
      | no_handle ↦ pure (negated enoent, buf)
      | node_handle n ↦ read_folder buf n
      | content_handle _ ↦ undefined
    ]

  unfoldable pub g2f_releasedir : Info → Cmd W (ℤ × Info)
  g2f_releasedir fi = pure (pos 0, record fi { fh = no_handle })

  opened : Info → ℕ → Option H → Cmd W (ℤ × Info)
  opened fi zero none = undefined
  opened fi zero (some chn) = do
    direct ← ask (nodes.use_direct_io chn)
    pure (pos 0, record fi { nonseekable = false; direct_io = direct; fh = content_handle chn })
  opened fi (suc err) chn = pure (negated (suc err), fi)

  unfoldable pub g2f_open : Elements → Info → Cmd W (ℤ × Info)
  unfolding open_content opened
  g2f_open path fi = do
    (err, chn) ← open_content fs nodes condition path fi.flags
    opened fi err chn

  unfoldable pub g2f_read : ℕ → ℕ → Info → Cmd W (ℤ × List ℕ)
  unfolding content_of
  g2f_read size offset fi = do chn ← content_of fi; nodes.read chn size offset

  unfoldable pub g2f_release : Info → Cmd W ℤ
  unfolding content_of
  g2f_release fi = do chn ← content_of fi; nodes.close chn; nodes.delete chn; pure (pos 0)

  unfoldable pub g2f_fgetattr : Info → Cmd W (ℤ × A)
  unfolding content_of
  g2f_fgetattr fi = do chn ← content_of fi; a ← ask (nodes.handle_attr chn); pure (pos 0, a)

  unfoldable pub g2f_truncate : Elements → ℕ → Cmd W ℤ
  unfolding get_inode
  g2f_truncate path new_size = do
    o ← get_inode fs nodes condition path
    elim o [
      | none ↦ pure (negated enoent)
      | some n ↦ do
        folder ← ask (nodes.is_folder n)
        if folder
            then pure (negated eisdir)
            else (do ret ← nodes.truncate n new_size; pure (negated ret))
    ]

  -- What `create` makes of the handle: the inner `err` is another variable than the one returned.
  created : Info → Option H → Cmd W Info
  created fi none = undefined
  created fi (some chn) = do
    direct ← ask (nodes.use_direct_io chn)
    let fi' = record fi { nonseekable = false; direct_io = direct }
    err ← ask (nodes.get_error chn)
    if err == 0
        then pure (record fi' { fh = content_handle chn })
        else (do nodes.delete chn; pure fi')

  create_opens : Info → ℕ → Option N → Cmd W (ℤ × Info)
  unfolding created
  create_opens fi zero none = undefined
  create_opens fi zero (some f) = do
    chn ← nodes.open_content f create_flags
    fi' ← created fi chn
    pure (pos 0, fi')
  create_opens fi (suc err) f = pure (negated (suc err), fi)

  unfoldable pub g2f_create : Elements → Info → Cmd W (ℤ × Info)
  unfolding create_file create_opens
  g2f_create path fi = do (err, f) ← create_file fs nodes condition path; create_opens fi err f

  unfoldable pub g2f_access : Elements → Cmd W ℤ
  unfolding get_inode
  g2f_access path = do
    o ← get_inode fs nodes condition path
    elim o [ none ↦ pure (negated enoent) | some _ ↦ pure (pos 0) ]

  unfoldable pub g2f_write : List ℕ → ℕ → Info → Cmd W ℤ
  unfolding content_of
  g2f_write buf offset fi = do
    chn ← content_of fi
    ret ← nodes.write chn buf offset
    err ← ask (nodes.get_error chn)
    if err == 0 then pure ret else pure (negated err)

  unfoldable pub g2f_unlink : Elements → Cmd W ℤ
  unfolding remove_inode
  g2f_unlink path = do err ← remove_inode fs nodes condition path; pure (negated err)

  unfoldable pub g2f_mkdir : Elements → Cmd W ℤ
  unfolding create_dir
  g2f_mkdir path = do (err, _) ← create_dir fs nodes condition path; pure (negated err)

  unfoldable pub g2f_rmdir : Elements → Cmd W ℤ
  unfolding remove_inode
  g2f_rmdir path = do err ← remove_inode fs nodes condition path; pure (negated err)

  unfoldable pub g2f_flush : Info → Cmd W ℤ
  unfolding content_of
  g2f_flush fi = do chn ← content_of fi; err ← nodes.flush chn; pure (negated err)

  unfoldable pub g2f_rename : Elements → Elements → Cmd W ℤ
  unfolding rename
  g2f_rename path new_path = do err ← rename fs nodes condition path new_path; pure (negated err)
