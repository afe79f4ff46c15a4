-- ===== src/Node.antt =====
-- INode::NodeType of src/fs/INode.h, TimeAttrib of src/utils/decls.h, and the data of
-- AbstractFileSystem::Node (src/fs/AbstractFileSystem.h) with its accessors.
pub mod Times
use gd2fuse.Base.{ℕ, String, Bool, true, false, Option, none, some, List, []}
use gd2fuse.Cache.{Ptr}

pub data NodeType : Type 0 where
  directory exported binary shortcut : NodeType

pub data TimeAttrib : Type 0 where
  access_time modification_time change_time : TimeAttrib

pub record Timespec : Type 0 where
  pub tv_sec : ℕ
  pub tv_nsec : ℕ

abbrev pub zero_time : Timespec
zero_time = record { tv_sec = 0; tv_nsec = 0 }

pub record Node : Type 0 where
  pub dir_filled : Bool
  pub next : List Ptr
  pub id : String
  pub name : String
  pub size : ℕ
  pub file_type : NodeType
  pub md5 : List ℕ
  pub parent : Option Ptr
  pub last_access : Timespec
  pub last_modification : Timespec
  pub last_change : Timespec

-- The constructor's initial values; the three times are not initialised there, and start at 0 here.
abbrev pub new_node : Option Ptr → Node
new_node parent = record {
  dir_filled = false;
  next = [];
  id = "";
  name = "";
  size = 0;
  file_type = binary;
  md5 = [];
  parent = parent;
  last_access = zero_time;
  last_modification = zero_time;
  last_change = zero_time;
}

abbrev pub is_directory : NodeType → Bool
is_directory directory = true
is_directory _ = false

abbrev pub is_folder : Node → Bool
is_folder n = is_directory n.file_type

unfoldable pub set_time : TimeAttrib → Timespec → Node → Node
set_time modification_time value n = record n { last_modification = value }
set_time change_time value n = record n { last_change = value }
set_time access_time value n = record n { last_access = value }

unfoldable pub get_time : TimeAttrib → Node → Timespec
get_time modification_time n = n.last_modification
get_time change_time n = n.last_change
get_time access_time n = n.last_access

unfoldable pub clear_time : TimeAttrib → Node → Node
clear_time modification_time n = record n { last_modification = zero_time }
clear_time change_time n = record n { last_change = zero_time }
clear_time access_time n = record n { last_access = zero_time }

-- What a provider's description of a file sets on a node (fillNode of GoogleProvider.cpp): the
-- checksum is set only if there is one.
pub record Meta : Type 0 where
  pub id : String
  pub name : String
  pub file_type : NodeType
  pub size : ℕ
  pub md5 : Option (List ℕ)
  pub last_access : Timespec
  pub last_modification : Timespec
  pub last_change : Timespec

abbrev md5_or : Option (List ℕ) → List ℕ → List ℕ
md5_or none old = old
md5_or (some new) old = new

abbrev pub set_meta : Meta → Node → Node
set_meta m n = record n {
  id = m.id;
  name = m.name;
  file_type = m.file_type;
  size = m.size;
  md5 = md5_or m.md5 n.md5;
  last_access = m.last_access;
  last_modification = m.last_modification;
  last_change = m.last_change;
}
