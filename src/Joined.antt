-- ===== src/Joined.antt =====
-- JoinedFileSystem (src/fs/JoinedFileSystem.cpp): the tree of mount points, and the routing of paths
-- to the mounted file systems. Mount nodes are pointers into a heap; a file system is known by the
-- identity of its shared pointer.
pub mod Routes
pub mod Nested
pub mod Merge
pub mod Ops
mod Tests
use gd2fuse.Base.{
  ℕ, suc, String, Bool, true, false, Option, none, some, List, [], ◌∷◌, ◌++◌, ◌==◌, nat_eq,
  string_eq, list_eq, if◌then◌else◌,
}
use gd2fuse.FilePath.{Elements, skip_root, root_path, ◌/=◌, from_path_it}

abbrev pub MountPtr : Type 0
MountPtr = ℕ

-- IFileSystemPtr
abbrev pub FsPtr : Type 0
FsPtr = ℕ

-- JoinedNode; its access time is not modelled
pub record MountNode : Type 0 where
  pub parent : Option MountPtr
  pub name : String
  pub next : List MountPtr
  pub mode : ℕ
  pub fs : Option FsPtr

pub record Mounts : Type 0 where
  pub node : MountPtr → MountNode
  pub fresh : MountPtr

abbrev pub set_node : Mounts → MountPtr → MountNode → Mounts
set_node t p n = record t { node = λ q. if q == p then n else t.node q }

abbrev pub new_mount : Option MountPtr → String → ℕ → MountNode
new_mount parent name mode = record {
  parent = parent;
  name = name;
  next = [];
  mode = mode;
  fs = none;
}

unfoldable pub mount_child : Mounts → List MountPtr → String → Option MountPtr
mount_child t [] name = none
mount_child t (p ∷ ps) name = if (t.node p).name == name then some p else mount_child t ps name

-- `_next.push_back(new JoinedNode(curr,*it,mode))`: the list is that of the node `this` on which the
-- method is called, at every depth
abbrev pub push_mount : Mounts → MountPtr → MountPtr → String → ℕ → Mounts
push_mount t this curr name mode =
    let made = set_node t t.fresh (new_mount (some curr) name mode) in
    let owner = made.node this in
    record (set_node made this (record owner { next = owner.next ++ t.fresh ∷ [] })) {
      fresh = suc t.fresh;
    }

-- buildBranch
unfoldable pub build_branch : MountPtr → MountPtr → Elements → FsPtr → ℕ → Mounts → Mounts
unfolding mount_child
build_branch this curr [] fs mode t = set_node t curr (record (t.node curr) { fs = some fs })
build_branch this curr (e ∷ it) fs mode t = elim (mount_child t (t.node curr).next e) [
  | some q ↦ build_branch this q it fs mode t
  | none ↦ build_branch this t.fresh it fs mode (push_mount t this curr e mode)
]

-- One mounted file system: its path, its mode and its pointer.
abbrev pub Mount : Type 0
Mount = Elements × ℕ × FsPtr

abbrev pub mount_root : MountPtr
mount_root = 0

build_all : List Mount → Mounts → Mounts
unfolding build_branch
build_all [] t = t
build_all ((path, mode, fs) ∷ ms) t =
    build_all ms (build_branch mount_root mount_root (skip_root path) fs mode t)

-- The constructor; without mounts there is no root.
unfoldable pub build : ℕ → List Mount → Option Mounts
unfolding build_all
build root_mode [] = none
build root_mode (m ∷ ms) =
    some (build_all (m ∷ ms) (record { node = λ _. new_mount none "/" root_mode; fresh = 1 }))

-- JoinedFileSystemFactory::mount and build
unfoldable pub mount : Elements → FsPtr → ℕ → List Mount → List Mount
mount path fs mode ms = ms ++ (path, mode, fs) ∷ []

-- The deepest mount on the way, and the elements behind it.
abbrev pub Best : Type 0
Best = Option MountPtr × Elements

abbrev pub better : Mounts → MountPtr → Elements → Best → Best
better t p it best = elim (t.node p).fs [ none ↦ best | some _ ↦ (some p, it) ]

mount_loop : Mounts → MountPtr → Best → Elements → Best
unfolding mount_child
mount_loop t curr best [] = best
mount_loop t curr best (e ∷ it) = elim (mount_child t (t.node curr).next e) [
  | none ↦ best
  | some q ↦ mount_loop t q (better t q it best) it
]

-- findMountPoint
unfoldable pub find_mount_point : Mounts → MountPtr → Elements → Best
unfolding mount_loop
find_mount_point t this it = mount_loop t this (better t this it (none, [])) it

-- What getFS makes of a mount point and the elements behind it: nothing, if there is no element.
route : Mounts → Best → Option (FsPtr × Elements)
unfolding from_path_it
route t (none, it) = none
route t (some p, []) = none
route t (some p, e ∷ it) = elim (t.node p).fs [
  | none ↦ none
  | some fs ↦ some (fs, root_path ++ from_path_it (e ∷ it))
]

-- getFS: the file system that has a path, and the path inside of it
unfoldable pub get_fs : Mounts → Elements → Option (FsPtr × Elements)
unfolding find_mount_point route
get_fs t path = route t (find_mount_point t mount_root (skip_root path))
