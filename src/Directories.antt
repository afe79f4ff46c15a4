-- ===== src/Directories.antt =====
-- The directories of the application: AbstractPathManager and the XDG manager of
-- src/control/paths/AbstractPathManager.cpp and PathManager.cpp. The environment gives paths, an empty
-- value the empty one; the user's record and the operations of the file system are parameters.
pub mod Choice
pub mod Managers
use gd2fuse.Base.{
  String, Bool, true, false, Option, none, some, List, [], ◌∷◌, ◌++◌, ◌==◌, string_eq,
  if◌then◌else◌, ◌&&◌, not,
}
use gd2fuse.FilePath.{Elements, ◌/=◌}
use gd2fuse.Outcome.{Error, app_category, Cmd, pure, throw, and_then, ◌>>=◌, ◌>>◌}

-- IPathManager::Type
pub data DirType : Type 0 where
  config_dir data_dir cache_dir runtime_dir : DirType

abbrev pub unknown_env_variable : Error
unknown_env_variable = record {
  value = 15;
  category = app_category;
  detail = "Can't read '%1' directory";
}

abbrev pub path_error_thrown : Error
path_error_thrown = record {
  value = 16;
  category = app_category;
  detail = "Path to '%1' directory '%2' must be absolute!";
}

-- `is_absolute`
abbrev pub is_absolute : Elements → Bool
is_absolute [] = false
is_absolute (e ∷ _) = e == "/"

abbrev pub Environment : Type 0
Environment = String → Option Elements

module _ {S : Type 0} (env : Environment) (password_dir : Option Elements) where
  -- _readHomeDir
  read_home_dir : Cmd S Elements
  read_home_dir = elim (env "HOME") [
    | some home ↦ pure home
    | none ↦ elim password_dir [ some home ↦ pure home | none ↦ throw unknown_env_variable ]
  ]

  -- an XDG variable, or a directory below the home directory
  dir_or_home : String → Elements → Cmd S Elements
  unfolding read_home_dir
  dir_or_home variable below = elim (env variable) [
    | some p ↦ pure p
    | none ↦ do home ← read_home_dir; pure (home ++ below)
  ]

  base_dir : DirType → Cmd S Elements
  unfolding dir_or_home
  base_dir config_dir = dir_or_home "XDG_CONFIG_HOME" (".config" ∷ [])
  base_dir data_dir = dir_or_home "XDG_DATA_HOME" (".local" ∷ "share" ∷ [])
  base_dir cache_dir = dir_or_home "XDG_CACHE_HOME" (".cache" ∷ [])
  base_dir runtime_dir = elim (env "XDG_RUNTIME_HOME") [
    | none ↦ throw unknown_env_variable
    | some p ↦ pure p
  ]

  -- XDGPathManager::readDirName
  unfoldable pub read_dir_name : DirType → Cmd S Elements
  unfolding base_dir
  read_dir_name type = do
    ret ← base_dir type
    if is_absolute ret then pure (ret /= "gd2fuse") else throw path_error_thrown

-- AbstractPathManager's members, and the file system.
pub record Paths (W : Type 0) : Type 0 where
  pub conf_path : Elements
  pub data_path : Elements
  pub cache_path : Elements
  pub runtime_path : Elements
  pub auto_create : Bool
  pub disk : W

abbrev pub member : {W : Type 0} → DirType → Paths W → Elements
member config_dir s = s.conf_path
member data_dir s = s.data_path
member cache_dir s = s.cache_path
member runtime_dir s = s.runtime_path

abbrev pub set_member : {W : Type 0} → DirType → Elements → Paths W → Paths W
set_member config_dir p s = record s { conf_path = p }
set_member data_dir p s = record s { data_path = p }
set_member cache_dir p s = record s { cache_path = p }
set_member runtime_dir p s = record s { runtime_path = p }

abbrev pub is_runtime : DirType → Bool
is_runtime runtime_dir = true
is_runtime _ = false

-- boost's operations on directories
pub record Disk (W : Type 0) : Type 0 where
  pub exists : Elements → W → Bool
  pub create_directories : Elements → W → Bool × W
  pub owner_only : Elements → W → W

module _ {W : Type 0} (disk : Disk W) where
  -- _createDir
  unfoldable pub create_dir_on_disk : DirType → Elements → W → Bool × W
  create_dir_on_disk type path w =
      if disk.exists path w
      then (false, w)
      else (let (res, made) = disk.create_directories path w in
          if res && is_runtime type then (res, disk.owner_only path made) else (res, made))

  -- the member, read if it is empty
  known_dir : (DirType → Cmd (Paths W) Elements) → DirType → Cmd (Paths W) Elements
  known_dir read type s = elim (member type s) [
    | e ∷ p ↦ pure (e ∷ p) s
    | [] ↦ (read type >>= λ p t. pure p (set_member type p t)) s
  ]

  created_if : DirType → Elements → Cmd (Paths W) Elements
  unfolding create_dir_on_disk
  created_if type path s =
      if s.auto_create
      then pure path (record s { disk = (create_dir_on_disk type path s.disk).1 })
      else pure path s

  -- AbstractPathManager::getDir, with a subclass's readDirName
  unfoldable pub get_dir : (DirType → Cmd (Paths W) Elements) → DirType → Cmd (Paths W) Elements
  unfolding known_dir created_if
  get_dir read type = do path ← known_dir read type; created_if type path
