-- ===== src/Joined/Ops/Laws.antt =====
-- getFS and the operations of the joined file system that go by it.
use gd2fuse.Base.{
  none, Bool, String, ◌≡◌, ◌≢◌, some, Option-cases, [], ◌∷◌, ◌++◌, nat_eq, string_eq, list_eq,
  arith, inl, inr,
}
use gd2fuse.FilePath.{Elements, skip_root}
use gd2fuse.FilePath.Laws.{from_path_it_lem}
use gd2fuse.FileSystem.{Operations}
use gd2fuse.Outcome.{system_error, ok, threw}
use gd2fuse.Joined.{MountPtr, FsPtr, Mounts, Best, mount_root, route, get_fs}
use gd2fuse.FileSystem.{remove_not_found, create_bad_path}
use gd2fuse.Errno.{enoent}
use gd2fuse.Joined.Ops.{joined, joined_create, joined_remove, joined_rename, source, target}
use gd2fuse.Joined.Routes
use gd2fuse.Joined.Routes.{walk, Bare, Deepest, find_mount_point-Deepest}

-- A path of the file system `fs`: the elements behind its mount point `p`, below the root.
pub record Inside (t : Mounts) (path : Elements) (fs : FsPtr) (rest : Elements) : Type 0 where
  pub p : MountPtr
  pub taken : Elements
  pub e : String
  pub it : Elements
  pub inner : rest ≡ "/" ∷ e ∷ it
  pub split : taken ++ e ∷ it ≡ skip_root path
  pub reached : walk t mount_root taken ≡ some p
  pub mounted : (t.node p).fs ≡ some fs
  pub deepest : Bare t p (e ∷ it)

module _ (t : Mounts) (path : Elements) (fs : FsPtr) (rest : Elements) where
  route-Inside :
      (b : Best)
      → Deepest t mount_root (skip_root path) b
      → route t b ≡ some (fs, rest)
      → Inside t path fs rest
  unfolding route
  route-Inside b (Routes.nowhere plain bare) eq = cc
  route-Inside b (Routes.at p taken [] split reached mounted bare) eq = cc
  route-Inside b (Routes.at p taken (e ∷ it) split reached mounted bare) eq =
      elim (Option-cases (t.node p).fs) [
        | inl plain ↦ absurd (mounted plain)
        | inr (f, there) ↦ record {
          p = p;
          taken = taken;
          e = e;
          it = it;
          inner = ground (arith, from_path_it_lem (e ∷ it));
          split = split;
          reached = reached;
          mounted = ground arith;
          deepest = bare;
        }
      ]

  -- Where getFS finds a file system, it is the one at the deepest mount point on the path, at least
  -- one element lies behind that mount point, and the inner path is the root with those elements.
  pub get_fs-Inside : get_fs t path ≡ some (fs, rest) → Inside t path fs rest
  unfolding get_fs
  get_fs-Inside eq = route-Inside _ (find_mount_point-Deepest t mount_root (skip_root path)) eq

-- A path that is routed to no file system: each operation says so, and none of the mounted file
-- systems is called.
module _ {W N : Type 0} (systems : FsPtr → Operations W N) (mount_node : MountPtr → N) (t : Mounts)
    (path : Elements) (outside : get_fs t path ≡ none) (s : W) where
  pub create-outside :
      (d : Bool)
      → (joined systems mount_node (some t)).create_node path d s ≡ ok (create_bad_path, none) s
  unfolding joined joined_create target
  create-outside d = ground arith

  pub remove-outside :
      (joined systems mount_node (some t)).remove_node path s ≡ ok remove_not_found s
  unfolding joined joined_remove target
  remove-outside = ground arith

  pub rename-outside :
      (new : Elements)
      → path ≢ new
      → (joined systems mount_node (some t)).rename_node path new s
        ≡ threw (system_error enoent "File '%1' not found") s
  unfolding joined joined_rename source target
  rename-outside new ne = ground arith
