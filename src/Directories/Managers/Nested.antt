-- ===== src/Directories/Managers/Nested.antt =====
-- A session's directories, a level below those of the configuration.
use gd2fuse.Base.{String, ◌≡◌, refl, []}
use gd2fuse.FilePath.{Elements, ◌/=◌}
use gd2fuse.Outcome.{ok}
use gd2fuse.Directories.{DirType, Paths, Disk, member, get_dir}
use gd2fuse.Directories.Choice.{get_dir-first}
use gd2fuse.Directories.Managers.{single_point, next_level_dir, behind_parent, tag}

-- A session's manager, a level below a manager with a single root, neither asked before for a type:
-- the directory is the root's for the type with the session's name below it, and the session's manager
-- has that directory from then on.
pub get_dir-next_level :
    {W : Type 0} (disk : Disk W) (root : Elements) (name : String) (type : DirType)
    (s : Paths (Paths W))
    → member type s ≡ []
    → member type s.disk ≡ []
    → (u : Paths (Paths W)) × (get_dir
          (behind_parent disk)
          (next_level_dir (get_dir disk (single_point root)) name)
          type
          s
        ≡ ok ((root /= tag type) /= name) u)
      × (member type u ≡ (root /= tag type) /= name)
unfolding single_point next_level_dir
get_dir-next_level disk root name type s empty parent_empty =
    let (t, read, _) =
      get_dir-first disk type (single_point root) (root /= tag type) s.disk s.disk parent_empty
        refl in
    get_dir-first (behind_parent disk) type (next_level_dir (get_dir disk (single_point root)) name)
      ((root /= tag type) /= name) s (record s { disk = t }) empty (rw read refl)
