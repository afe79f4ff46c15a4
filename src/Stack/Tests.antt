-- ===== src/Stack/Tests.antt =====
-- A directory that is made through all the file systems, in a small tree.
use gd2fuse.Base.{
  String, ℕ, Bool, if◌then◌else◌, ◌≡◌, ◌≢◌, refl, none, some, false, [], ◌∷◌, list_eq, string_eq,
  length,
}
use gd2fuse.Base.Dict.{lookup}
use gd2fuse.Cache.{Ptr, find_by_path}
use gd2fuse.FileSystem.{Operations, create_bad_path, remove_not_found}
use gd2fuse.Node.{NodeType, binary, directory}
use gd2fuse.Outcome.{pure, Error}
use gd2fuse.Gate.{pos, Nodes}
use gd2fuse.Tree.{done, Backend, Fs}
use gd2fuse.Tree.Change.Create.{Accepts}
use gd2fuse.Tree.Change.Directory.{TellsFolders}
use gd2fuse.Tree.Samples.{cloud, small, small-IsWhole, meta_of, noon}
use gd2fuse.Tree.Content.Handle.{Descriptors}
use gd2fuse.Tree.Import.{Source, file}
use gd2fuse.Stack.Making.{Makes, mkdir-Makes}

abbrev descriptors : Descriptors (Unit {0})
descriptors = record {
  read_content = λ fd len offset w. done [] w;
  write_content = λ fd buf offset w. done (length buf) w;
  close_file = λ fd w. done tt w;
}

abbrev empty_source : Ptr → Source
empty_source p =
    file
      (record { name = "n"; file_type = binary; access = noon; modification = noon; change = noon })
      (record { size = 0; read = λ len at. some []; error = 0 })

-- A configuration's file system without files.
abbrev no_files : Operations (Fs (Unit {0})) Ptr
no_files = record {
  get = λ p. pure none;
  create_node = λ p d. pure (create_bad_path, none);
  remove_node = λ p. pure remove_not_found;
  rename_node = λ p q. pure tt;
  replace_node = λ p n. pure tt;
  insert_node = λ p n. pure tt;
}

abbrev node_objects : Nodes (Fs (Unit {0})) Ptr ℕ ℕ
node_objects = record {
  is_folder = λ n w. false;
  name = λ n w. "n";
  fill_attr = λ n w. 0;
  children = λ n. pure none;
  open_content = λ n flags. pure none;
  truncate = λ n size. pure 0;
  get_error = λ h w. 0;
  use_direct_io = λ h w. false;
  handle_attr = λ h w. 0;
  read = λ h size offset. pure (pos 0, []);
  write = λ h bytes offset. pure (pos 0);
  flush = λ h. pure 0;
  close = λ h. pure tt;
  delete = λ h. pure tt;
}

abbrev value_of : Error → ℕ
value_of e = e.value

uncached : find_by_path ("/" ∷ "a" ∷ "new" ∷ []) small.cache ≡ none
unfolding find_by_path lookup
uncached = refl

abbrev dir : String
dir = "a"

abbrev control_dir : String
control_dir = "control"

apart : dir ≢ control_dir
apart = λ h. cc

abbrev type_of : Bool → NodeType
type_of d = if d then directory else binary

-- A cloud that describes directories as such.
abbrev typed_cloud : Backend
typed_cloud = record cloud {
  create_meta = λ name parent d w. done (record (meta_of name) { file_type = type_of d }) w;
}

typed-Accepts : Accepts typed_cloud
typed-Accepts = record {
  reply = λ name parent d w. record (meta_of name) { file_type = type_of d };
  after = λ name parent d w. w;
  accepts = λ name parent d w. refl;
  named = λ name parent d w. refl;
}

typed-TellsFolders : TellsFolders typed_cloud typed-Accepts
unfolding typed-Accepts
typed-TellsFolders e id w = refl

mkdir-Makes_example :
    Makes typed_cloud descriptors noon 1 empty_source no_files
      (λ p. 0)
      7
      8
      488
      control_dir
      360
      node_objects
      value_of
      dir
      ("new" ∷ [])
      apart
      small
      0
mkdir-Makes_example =
    mkdir-Makes typed_cloud descriptors noon 1 empty_source no_files (λ p. 0) 7 8 488 control_dir
      360 node_objects value_of dir ("new" ∷ []) apart typed-Accepts typed-TellsFolders small 0
      small-IsWhole uncached
