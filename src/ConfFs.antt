-- ===== src/ConfFs.antt =====
-- The configuration's file system (src/fs/ConfFileSystem.cpp): a flat directory with a file for each
-- property, in which a property is read as a text and set by writing; Root has the directory and the
-- operations of the file system. The user's and group's ids and the inode number are left out of the
-- attributes.
pub mod Root
mod Listing
mod Access
mod Reading
mod Tests
use mathlib.Core.Option
use gd2fuse.Base.{
  ℕ, zero, suc, ◌+◌, ◌<◌, String, ◌≡◌, Bool, true, false, not, Option, none, some, List, [], ◌∷◌,
  ◌++◌, ◌==◌, nat_eq, string_eq, list_eq, if◌then◌else◌, Text, codes, length, take, drop, ltb, map,
}
use gd2fuse.Errno.{eacces, efbig, eisdir, einval, eperm}
use gd2fuse.FilePath.{Elements, root_path, filename}
use gd2fuse.FileSystem.{CreateStatus, create_forbidden, RemoveStatus, remove_forbidden}
use gd2fuse.Node.{
  Timespec, TimeAttrib, access_time, modification_time, change_time, NodeType, directory, binary,
}
use gd2fuse.Outcome.{Error, system_error, Cmd, throw}
use gd2fuse.EnumMap.{EnumMap, to_string}
use gd2fuse.EnumDef.{EnumEntry}
use gd2fuse.Property.{
  TypeName, enum, uint, oint, bool, path, PropertyType, enum_type, uint_type, oint_type, bool_type,
  path_type, type_name, Casts, Property, Store, get_value, set_value, reset_to_default,
  get_last_change_time,
}
use gd2fuse.Configuration.{PropertyIterator, has_next, next, PropertiesList, properties}

-- The enumeration IPropertyType::Type with its table (src/control/types/IPropertyType.cpp).
abbrev pub type_value : TypeName → ℕ
type_value enum = 0
type_value uint = 1
type_value oint = 2
type_value bool = 3
type_value path = 4

abbrev pub type_map : EnumMap
type_map =
    record { value = 0; str = codes "ENUM" }
    ∷ record { value = 1; str = codes "UINT" }
    ∷ record { value = 2; str = codes "OINT" }
    ∷ record { value = 3; str = codes "BOOL" }
    ∷ record { value = 4; str = codes "PATH" }
    ∷ []

-- the text of a type, if it is no null pointer
abbrev pub text_of : Option (Option Text) → Option Text
text_of (some (some s)) = some s
text_of _ = none

unfoldable pub type_text : TypeName → Option Text
unfolding to_string
type_text t = text_of (to_string type_map (type_value t))

-- std::boolalpha
abbrev pub bool_text : Bool → Text
bool_text true = codes "true"
bool_text false = codes "false"

-- std::endl
abbrev pub endl : Text
endl = 10 ∷ []

-- the loop over the entries of an enumeration
unfoldable pub entries_text : List EnumEntry → Text
entries_text [] = []
entries_text (e ∷ []) = e.entry
entries_text (e ∷ f ∷ es) = e.entry ++ codes "," ++ entries_text (f ∷ es)

abbrev pub enum_lines : PropertyType → Text
enum_lines (enum_type es) = endl ++ codes "enum_values: " ++ entries_text es
enum_lines _ = []

-- the lines behind the type's
unfoldable pub value_lines : Property → Store → Text
unfolding entries_text
value_lines p st =
    codes "runtime: "
    ++ bool_text p.upstream.p.change_rt
    ++ endl
    ++ codes "value: "
    ++ get_value p st
    ++ endl
    ++ codes "default: "
    ++ p.upstream.p.default_value
    ++ endl
    ++ codes "title: "
    ++ p.upstream.p.description
    ++ enum_lines p.upstream.type
    ++ endl

-- exportPropery; `none` is a null pointer that is printed
unfoldable pub export_property : Property → Store → Option Text
unfolding type_text value_lines
export_property p st =
    Option.map
      (λ t.
        codes "name: "
        ++ p.upstream.p.name
        ++ endl
        ++ codes "type: "
        ++ t
        ++ endl
        ++ value_lines p st)
      (type_text (type_name p.upstream.type))

pub record PropNode : Type 0 where
  pub p : Property
  pub last_access : Timespec

-- PropNode::ContentHandle
pub record ContentHandle : Type 0 where
  pub p : Property
  pub s : Text
  pub error : ℕ

-- PropNode's constructor; `start` is the start of the application
unfoldable pub prop_node : Timespec → Property → Store → PropNode
prop_node start p st = record { p = p; last_access = get_last_change_time start p st }

unfoldable pub get_time : Timespec → PropNode → TimeAttrib → Store → Timespec
get_time start n modification_time st = get_last_change_time start n.p st
get_time start n access_time st = n.last_access
get_time start n change_time st = start

abbrev pub max_size_conf_file : ℕ
max_size_conf_file = 100

unfoldable pub truncate : PropNode → ℕ → Store → ℕ × Store
truncate n new_size st =
    if not n.p.upstream.p.change_rt
    then (eacces, st)
    else if ltb max_size_conf_file new_size
    then (efbig, st)
    else if new_size == 0
    then (0, (reset_to_default n.p st).1)
    else (0, st)

-- S_IFREG|S_IRUSR|S_IRGRP, and S_IWUSR
unfoldable pub node_mode : PropNode → ℕ
node_mode n = if n.p.upstream.p.change_rt then 0o100640 else 0o100440

-- PropNode::openContent: a handle with the text of the moment
unfoldable pub open_content : PropNode → Store → Option ContentHandle
unfolding export_property
open_content n st = Option.map (λ s. record { p = n.p; s = s; error = 0 }) (export_property n.p st)

-- INT_MAX
abbrev pub int_max : ℕ
int_max = 2147483647

-- ContentHandle::read, with the bytes that are copied; `none` is an exception: std::out_of_range of
-- `copy` behind the end, or of the conversion to `int`
unfoldable pub read : ContentHandle → ℕ → ℕ → ContentHandle × Option Text
read h len offset = (
  record h { error = 0 },
  if ltb (length h.s) offset
      then none
      else if ltb int_max (length (take len (drop offset h.s)))
      then none
      else some (take len (drop offset h.s)),
)

abbrev pub write_result :
    ContentHandle → ℕ → Option Error × Store → ContentHandle × Store × Option ℕ
write_result h size (none, st) = (record h { error = 0 }, st, some size)
write_result h size (some e, st) = (record h { error = e.value }, st, none)

-- ContentHandle::write, with its size or `none` for -1
unfoldable pub write :
    Casts → Timespec → ContentHandle → Text → ℕ → Store → ContentHandle × Store × Option ℕ
write lib now h buf offset st =
    if offset == 0
    then write_result h (length buf) (set_value lib now h.p buf st)
    else (record h { error = einval }, st, none)
