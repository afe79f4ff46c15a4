-- ===== src/Attributes.antt =====
-- What `stat` tells of the nodes: fillAttr of the tree's nodes (src/fs/AbstractFileSystem.cpp), of the
-- mount points (src/fs/JoinedFileSystem.cpp), and of the configuration's nodes and handles
-- (src/fs/ConfFileSystem.cpp). The ids of the user and the address that is the inode number are
-- arguments.
use gd2fuse.Base.{ℕ, ◌+◌, ◌/◌, ◌%◌, Bool, true, false, ◌==◌, nat_eq, if◌then◌else◌, length}
use gd2fuse.Node.{Node, Timespec, zero_time, is_folder}
use gd2fuse.Joined.{MountNode}
use gd2fuse.Property.{Store, get_last_change_time}
use gd2fuse.ConfFs.{PropNode, ContentHandle, node_mode}

-- struct stat
pub record Stat : Type 0 where
  pub st_mode : ℕ
  pub st_size : ℕ
  pub st_nlink : ℕ
  pub st_uid : ℕ
  pub st_gid : ℕ
  pub st_ino : ℕ
  pub st_atim : Timespec
  pub st_mtim : Timespec
  pub st_ctim : Timespec

-- G2F_CLEAN_STAT
abbrev pub clean_stat : Stat
clean_stat = record {
  st_mode = 0;
  st_size = 0;
  st_nlink = 0;
  st_uid = 0;
  st_gid = 0;
  st_ino = 0;
  st_atim = zero_time;
  st_mtim = zero_time;
  st_ctim = zero_time;
}

-- Application's getUID, getGID and startTime
pub record Process : Type 0 where
  pub uid : ℕ
  pub gid : ℕ
  pub start : Timespec

-- `statbuf.st_mode|=bit`, for a bit of the mode
abbrev pub with_mode : ℕ → Stat → Stat
with_mode bit st =
    if st.st_mode / bit % 2 == 1 then st else record st { st_mode = st.st_mode + bit }

abbrev pub s_ifreg : ℕ
s_ifreg = 0o100000

abbrev pub s_ifdir : ℕ
s_ifdir = 0o40000

-- S_IRWXU, S_IRUSR|S_IWUSR and S_IRGRP
abbrev pub with_owner_all : Stat → Stat
with_owner_all st = with_mode 0o100 (with_mode 0o200 (with_mode 0o400 st))

abbrev pub with_owner_rw : Stat → Stat
with_owner_rw st = with_mode 0o200 (with_mode 0o400 st)

-- The two tests of isFolder.
abbrev pub with_type : Bool → Stat → Stat
with_type true st = with_mode s_ifdir st
with_type false st = with_mode s_ifreg st

abbrev pub with_access : Bool → Stat → Stat
with_access true st = with_owner_all st
with_access false st = with_owner_rw st

module _ (app : Process) (address : ℕ) where
  -- the link, the user and the inode number
  abbrev owned : Stat → Stat
  owned st = record st { st_nlink = 1; st_uid = app.uid; st_gid = app.gid; st_ino = address }

  abbrev with_times : Timespec → Timespec → Timespec → Stat → Stat
  with_times a m c st = record st { st_atim = a; st_mtim = m; st_ctim = c }

  -- AbstractFileSystem::Node::fillAttr
  unfoldable pub fill_attr : Node → Stat
  fill_attr n =
      let sized = record clean_stat { st_size = n.size } in
      with_times n.last_access n.last_modification n.last_change
        (owned (with_mode 0o40 (with_access (is_folder n) (with_type (is_folder n) sized))))

  -- JoinedNode::fillAttr; the time of the last access is not part of MountNode
  unfoldable pub mount_attr : Timespec → MountNode → Stat
  mount_attr last_access n =
      with_times last_access app.start app.start
        (owned (with_mode s_ifdir (record clean_stat { st_mode = n.mode })))

  -- PropNode::fillAttr
  unfoldable pub prop_attr : PropNode → Store → Stat
  unfolding node_mode get_last_change_time
  prop_attr n st =
      with_times n.last_access (get_last_change_time app.start n.p st) app.start
        (owned (record clean_stat { st_mode = node_mode n }))

  -- PropNode::ContentHandle::fillAttr
  unfoldable pub handle_attr : PropNode → ContentHandle → Store → Stat
  unfolding prop_attr
  handle_attr parent h st = record (prop_attr parent st) { st_size = length h.s }

  -- PropRootNode::fillAttr
  unfoldable pub prop_root_attr : Timespec → Stat
  prop_root_attr last_access =
      with_times last_access app.start app.start (owned (record clean_stat { st_mode = 0o40750 }))
