-- ===== src/PropertyList.antt =====
-- AbstractStaticInitPropertiesList (src/control/props/AbstractStaticInitPropertiesList.cpp): the list
-- of properties that is built from static tables on the first use, here with in-memory properties
-- (AbstractMemoryStaticInitPropertiesList); and PropertyTypesRegistry (src/control/types).
pub mod Map
pub mod Fresh
pub mod Lookup
pub mod Total
mod Tests
use gd2fuse.Base.{
  ℕ, suc, Bool, true, false, Option, none, some, List, [], ◌∷◌, ◌==◌, nat_eq, list_eq,
  if◌then◌else◌, Text, length, Eq, ◌≡◌,
}
use gd2fuse.Base.Dict.{Dict, lookup, insert}
use gd2fuse.Node.{zero_time}
use gd2fuse.EnumDef.{EnumEntry, enum_def, less}
use gd2fuse.Property.{
  TypeName, enum, uint, oint, bool, path, PropertyType, enum_type, type_name, PropDefi,
  StaticProperty, Property, Store, put,
}

pub TypeName-discrete : Discrete TypeName
TypeName-discrete = hlevel

instance unfoldable pub type_name_eq : Eq TypeName
unfolding TypeName-discrete
type_name_eq = record { dec = TypeName-discrete }

pub record PropertyTypesRegistry : Type 0 where
  pub regular_types : List PropertyType
  pub enum_types : Dict Text PropertyType

find_type : TypeName → List PropertyType → Option PropertyType
find_type t [] = none
find_type t (e ∷ es) = let rest = find_type t es in if type_name e == t then some e else rest

unfoldable pub get_type : PropertyTypesRegistry → TypeName → Option PropertyType
unfolding find_type
get_type r t = find_type t r.regular_types

unfoldable pub register_enum :
    PropertyTypesRegistry → Text → List EnumEntry → PropertyType × PropertyTypesRegistry
register_enum r code es = elim (lookup code r.enum_types) [
  | some t ↦ (t, r)
  | none ↦
      let ret = enum_type (enum_def es) in
      (ret, record r { enum_types = insert code ret r.enum_types })
]

-- AbstractStaticInitPropertiesList::EnumDefi
pub record EnumDefi : Type 0 where
  pub code : Text
  pub entries : List EnumEntry

-- findEnumDefi
unfoldable pub find_enum_defi : List EnumDefi → Text → Option EnumDefi
find_enum_defi [] code = none
find_enum_defi (e ∷ es) code =
    let rest = find_enum_defi es code in if e.code == code then some e else rest

-- std::map by the names, in their order
abbrev pub PropsMap : Type 0
PropsMap = List (Text × Property)

-- `props.insert`: an entry whose key is there already is left out
unfoldable pub map_insert : Text → Property → PropsMap → PropsMap
map_insert k p [] = (k, p) ∷ []
map_insert k p ((j, q) ∷ m) =
    let rest = map_insert k p m in
    if k == j then (j, q) ∷ m else if less k j then (k, p) ∷ (j, q) ∷ m else (j, q) ∷ rest

-- What the constructors change: the registry of types, the memory of the properties, and the address
-- of the next of them.
pub record Memory : Type 0 where
  pub registry : PropertyTypesRegistry
  pub store : Store
  pub fresh : ℕ

abbrev pub with_memory : Memory → Option PropertyType → Option (PropertyType × Memory)
with_memory g none = none
with_memory g (some t) = some (t, g)

abbrev pub registered : Memory → Text → Option EnumDefi → Option (PropertyType × Memory)
registered g code none = none
registered g code (some ed) =
    let (t, r) = register_enum g.registry code ed.entries in some (t, record g { registry = r })

-- The type of a property; `none` is a failed assertion.
abbrev pub type_by :
    List EnumDefi → TypeName → Option Text → Memory → Option (PropertyType × Memory)
type_by enums enum none g = none
type_by enums enum (some code) g = registered g code (find_enum_defi enums code)
type_by enums type code g = with_memory g (get_type g.registry type)

unfoldable pub type_of : List EnumDefi → PropDefi → Memory → Option (PropertyType × Memory)
unfolding get_type register_enum find_enum_defi
type_of enums p g = type_by enums p.type p.enum_code g

-- InMemoryProperty's constructor, called by `decorate`
unfoldable pub decorate : StaticProperty → Memory → Property × Memory
decorate s g = (
  record { upstream = s; cell = g.fresh },
  record g {
    store = put g.store g.fresh (record { value = []; last_change = zero_time });
    fresh = suc g.fresh;
  },
)

abbrev pub extended :
    PropDefi → PropsMap → Option (PropertyType × Memory) → Option (PropsMap × Memory)
extended p props none = none
extended p props (some (t, g)) =
    let (pd, g') = decorate (record { p = p; type = t }) g in some (map_insert p.name pd props, g')

-- a round of Impl's constructor
unfoldable pub add_property :
    List EnumDefi → PropDefi → PropsMap × Memory → Option (PropsMap × Memory)
unfolding type_of decorate map_insert
add_property enums p (props, g) = extended p props (type_of enums p g)

-- Impl's constructor
unfoldable pub add_properties :
    List EnumDefi → List PropDefi → PropsMap × Memory → Option (PropsMap × Memory)
unfolding add_property
add_properties enums [] s = some s
add_properties enums (p ∷ ps) s =
    let rest = λ (t : PropsMap × Memory). add_properties enums ps t in
    elim (add_property enums p s) [ none ↦ none | some t ↦ rest t ]

unfoldable pub init : List PropDefi → List EnumDefi → Memory → Option (PropsMap × Memory)
unfolding add_properties
init props enums g = add_properties enums props ([], g)

unfoldable pub find_property : PropsMap → Text → Option Property
find_property [] name = none
find_property ((j, p) ∷ m) name =
    let rest = find_property m name in if name == j then some p else rest

unfoldable pub is_empty : PropsMap → Bool
is_empty [] = true
is_empty (_ ∷ _) = false

unfoldable pub get_properties_size : PropsMap → ℕ
get_properties_size m = length m

-- getProperties, as the properties that its iterator gives
unfoldable pub get_properties : PropsMap → List Property
get_properties [] = []
get_properties ((_, p) ∷ m) = p ∷ get_properties m
