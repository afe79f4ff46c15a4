-- ===== src/Directories/Managers.antt =====
-- The other path managers of src/control/paths/PathManager.cpp: the one below a single root, and the
-- one a level below another manager, whose own state it reaches as it does the disk; and isExists,
-- create and setAutocreation of AbstractPathManager.cpp.
pub mod Nested
use gd2fuse.Base.{String, Bool, true, false}
use gd2fuse.FilePath.{Elements, ◌/=◌}
use gd2fuse.Outcome.{Outcome, ok, threw, fault, out_of_fuel, Cmd, pure, and_then, ◌>>=◌}
use gd2fuse.Directories.{
  DirType, config_dir, data_dir, cache_dir, runtime_dir, Paths, Disk, get_dir, create_dir_on_disk,
}

abbrev pub tag : DirType → String
tag config_dir = "config"
tag data_dir = "data"
tag cache_dir = "cache"
tag runtime_dir = "runtime"

-- SinglePointPathManager::readDirName
unfoldable pub single_point : {S : Type 0} → Elements → DirType → Cmd S Elements
single_point root type = pure (root /= tag type)

module _ {W : Type 0} where
  -- the disk, behind the parent manager
  abbrev pub behind_parent : Disk W → Disk (Paths W)
  behind_parent disk = record {
    exists = λ p s. disk.exists p s.disk;
    create_directories = λ p s. (
      (disk.create_directories p s.disk).0,
      record s { disk = (disk.create_directories p s.disk).1 },
    );
    owner_only = λ p s. record s { disk = disk.owner_only p s.disk };
  }

  abbrev pub below :
      String → Paths (Paths W) → Outcome (Paths W) Elements → Outcome (Paths (Paths W)) Elements
  below next_level s (ok p t) = ok (p /= next_level) (record s { disk = t })
  below next_level s (threw e t) = threw e (record s { disk = t })
  below next_level s fault = fault
  below next_level s out_of_fuel = out_of_fuel

  -- NextLevelPathManager::readDirName, with the parent's getDir
  unfoldable pub next_level_dir :
      (DirType → Cmd (Paths W) Elements) → String → DirType → Cmd (Paths (Paths W)) Elements
  next_level_dir parent next_level type s = below next_level s (parent type s.disk)

  module _ (disk : Disk W) (read : DirType → Cmd (Paths W) Elements) where
    unfoldable pub is_exists : DirType → Cmd (Paths W) Bool
    unfolding get_dir
    is_exists type = do p ← get_dir disk read type; λ s. ok (disk.exists p s.disk) s

    unfoldable pub create : DirType → Cmd (Paths W) Bool
    unfolding get_dir create_dir_on_disk
    create type = do
      p ← get_dir disk read type
      λ s.
          ok (create_dir_on_disk disk type p s.disk).0
            (record s { disk = (create_dir_on_disk disk type p s.disk).1 })

  unfoldable pub set_autocreation : Bool → Paths W → Paths W
  set_autocreation ac s = record s { auto_create = ac }
