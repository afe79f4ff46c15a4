-- ===== src/Property.antt =====
-- The properties of the configuration: their types (src/control/types), the definitions in static tables
-- and the two classes of property over them, StaticProperty and InMemoryProperty
-- (src/control/props/AbstractStaticInitPropertiesList.cpp and AbstractMemoryStaticInitPropertiesList.cpp).
-- What a property can change, its value and the time of its last change, stands in a store.
pub mod Values
pub mod Normal
mod Tests
use gd2fuse.Base.{
  ℕ, Bool, true, false, not, ◌&&◌, ◌||◌, Option, none, some, List, [], ◌∷◌, ◌==◌, nat_eq, list_eq,
  if◌then◌else◌, Text, to_lower, leb, ltb,
}
use mathlib.Core.List.{reverse}
use gd2fuse.Errno.{einval}
use gd2fuse.Node.{Timespec, zero_time}
use gd2fuse.Outcome.{Error, system_error}
use gd2fuse.EnumDef.{EnumEntry, is}

-- IPropertyType::Type
pub data TypeName : Type 0 where
  enum uint oint bool path : TypeName

-- The classes of src/control/types: PropertyTypeEnum with its sorted entries, and the regular ones.
pub data PropertyType : Type 0 where
  enum_type : List EnumEntry → PropertyType
  uint_type oint_type bool_type path_type : PropertyType

unfoldable pub type_name : PropertyType → TypeName
type_name (enum_type es) = enum
type_name uint_type = uint
type_name oint_type = oint
type_name bool_type = bool
type_name path_type = path

-- Whether boost::lexical_cast accepts a text for a number of 32 bits and for a bool, and
-- boost::filesystem::native.
pub record Casts : Type 0 where
  pub cast_uint : Text → Bool
  pub cast_bool : Text → Bool
  pub native : Text → Bool

unfoldable pub is_digits : Text → Bool
is_digits [] = true
is_digits (c ∷ s) = let rest = is_digits s in if ltb c b'0' || ltb b'9' c then false else rest

abbrev pub or_false : Option Bool → Bool
or_false none = false
or_false (some b) = b

unfoldable pub check_validity : Casts → PropertyType → Text → Bool
unfolding is_digits
check_validity lib (enum_type es) value = or_false (is es value)
check_validity lib uint_type value = lib.cast_uint value
check_validity lib oint_type value = is_digits value
check_validity lib bool_type value = lib.cast_bool value
check_validity lib path_type value = lib.native value

-- AbstractStaticInitPropertiesList::PropDefi
pub record PropDefi : Type 0 where
  pub name : Text
  pub type : TypeName
  pub enum_code : Option Text
  pub default_value : Text
  pub change_rt : Bool
  pub description : Text

pub record StaticProperty : Type 0 where
  pub p : PropDefi
  pub type : PropertyType

-- The memory of an InMemoryProperty.
pub record Cell : Type 0 where
  pub value : Text
  pub last_change : Timespec

abbrev pub CellPtr : Type 0
CellPtr = ℕ

abbrev pub Store : Type 0
Store = CellPtr → Cell

abbrev pub put : Store → CellPtr → Cell → Store
put st a c b = if b == a then c else st b

pub record Property : Type 0 where
  pub upstream : StaticProperty
  pub cell : CellPtr

-- ISSET_TIMESPEC
abbrev pub isset : Timespec → Bool
isset t = not (t.tv_sec == 0)

-- boost::trim_if at the front, for the characters " \n\t"
abbrev pub is_blank : ℕ → Bool
is_blank c = c == 32 || c == 10 || c == 9

unfoldable pub trim_front : Text → Text
trim_front [] = []
trim_front (c ∷ s) = let rest = trim_front s in if is_blank c then rest else c ∷ s

unfoldable pub normalize_value : Text → Text
unfolding trim_front
normalize_value value = reverse (trim_front (reverse (trim_front (to_lower value))))

unfoldable pub get_value : Property → Store → Text
get_value p st =
    if isset (st p.cell).last_change then (st p.cell).value else p.upstream.p.default_value

unfoldable pub get_last_change_time : Timespec → Property → Store → Timespec
get_last_change_time start p st =
    if isset (st p.cell).last_change then (st p.cell).last_change else start

-- the condition for a change
unfoldable pub is_change : Property → Store → Text → Bool
is_change p st lv =
    (isset (st p.cell).last_change && not (lv == (st p.cell).value))
    || not (lv == p.upstream.p.default_value)

module _ (lib : Casts) (now : Timespec) where
  -- setValue at the time `now`: the error, if there is one, and the store
  unfoldable pub set_value : Property → Text → Store → Option Error × Store
  unfolding is_change
  set_value p val st =
      let lv = normalize_value val in
      if not (check_validity lib p.upstream.type lv)
      then (some (system_error einval ""), st)
      else if is_change p st lv
      then (none, put st p.cell (record { value = lv; last_change = now }))
      else (none, st)

unfoldable pub reset_to_default : Property → Store → Bool × Store
reset_to_default p st =
    (isset (st p.cell).last_change, put st p.cell (record { value = []; last_change = zero_time }))
