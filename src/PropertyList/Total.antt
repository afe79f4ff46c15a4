-- ===== src/PropertyList/Total.antt =====
-- When a list can be built from its tables.
use gd2fuse.Base.{◌≡◌, ◌≢◌, refl, sym, ap, ◌∙◌, Option, none, some, List, [], ◌∷◌, Text, All, arith}
use gd2fuse.EnumDef.{EnumEntry}
use gd2fuse.PropertyList.Fresh.{IsFresh}
use gd2fuse.PropertyList.Lookup.{FromTable, built-FromTable, properties-added}
use gd2fuse.Property.{TypeName, enum, uint, oint, bool, path, PropertyType, PropDefi}
use gd2fuse.PropertyList.{
  PropertyTypesRegistry, get_type, register_enum, EnumDefi, find_enum_defi, PropsMap, Memory,
  type_of, add_property, add_properties, init, extended, decorate, type_by, registered, with_memory,
}

abbrev CodeKnown : List EnumDefi → Option Text → Type 0
CodeKnown enums none = ⊥
CodeKnown enums (some code) = find_enum_defi enums code ≢ none

-- The type of a row is registered, or its code is the code of an enumeration of the table.
abbrev TypeKnown : List EnumDefi → PropertyTypesRegistry → Option Text → TypeName → Type 0
TypeKnown enums r code enum = CodeKnown enums code
TypeKnown enums r code uint = get_type r uint ≢ none
TypeKnown enums r code oint = get_type r oint ≢ none
TypeKnown enums r code bool = get_type r bool ≢ none
TypeKnown enums r code path = get_type r path ≢ none

abbrev pub IsKnown : List EnumDefi → PropertyTypesRegistry → PropDefi → Type 0
IsKnown enums r p = TypeKnown enums r p.enum_code p.type

-- Two registries with the same regular types.
abbrev SameRegular : PropertyTypesRegistry → PropertyTypesRegistry → Type 0
SameRegular r t = r.regular_types ≡ t.regular_types

register-regular :
    (r : PropertyTypesRegistry) (code : Text) (es : List EnumEntry)
    → (register_enum r code es).1.regular_types ≡ r.regular_types
unfolding register_enum
register-regular r code es = ground arith

abbrev Typed : PropertyTypesRegistry → Option (PropertyType × Memory) → Type 0
Typed r o = (t : PropertyType) × (g : Memory) × (o ≡ some (t, g)) × SameRegular r g.registry

registered-Typed :
    (r : PropertyTypesRegistry) (g : Memory) (code : Text) (o : Option EnumDefi)
    → SameRegular r g.registry
    → o ≢ none
    → Typed r (registered g code o)
registered-Typed r g code none same h = absurd (h refl)
registered-Typed r g code (some ed) same h = (
  (register_enum g.registry code ed.entries).0,
  record g { registry = (register_enum g.registry code ed.entries).1 },
  refl,
  same ∙ sym (register-regular g.registry code ed.entries),
)

with_memory-Typed :
    (r : PropertyTypesRegistry) (g : Memory) (o : Option PropertyType)
    → SameRegular r g.registry
    → o ≢ none
    → Typed r (with_memory g o)
with_memory-Typed r g none same h = absurd (h refl)
with_memory-Typed r g (some t) same h = (t, g, refl, same)

get_type-same :
    (r t : PropertyTypesRegistry) (n : TypeName)
    → SameRegular r t
    → get_type r n ≢ none
    → get_type t n ≢ none
unfolding get_type
get_type-same r t n same h = rw (← same) h

type_by-Typed :
    (enums : List EnumDefi) (n : TypeName) (code : Option Text) (r : PropertyTypesRegistry)
    (g : Memory)
    → SameRegular r g.registry
    → TypeKnown enums r code n
    → Typed r (type_by enums n code g)
type_by-Typed enums enum none r g same h = elim h [ ]
type_by-Typed enums enum (some code) r g same h = registered-Typed r g code _ same h
type_by-Typed enums uint code r g same h =
    with_memory-Typed r g _ same (get_type-same r _ uint same h)
type_by-Typed enums oint code r g same h =
    with_memory-Typed r g _ same (get_type-same r _ oint same h)
type_by-Typed enums bool code r g same h =
    with_memory-Typed r g _ same (get_type-same r _ bool same h)
type_by-Typed enums path code r g same h =
    with_memory-Typed r g _ same (get_type-same r _ path same h)

add_property-some :
    (enums : List EnumDefi) (p : PropDefi) (r : PropertyTypesRegistry) (s : PropsMap × Memory)
    → SameRegular r s.1.registry
    → IsKnown enums r p
    → (t : PropsMap × Memory) × (add_property enums p s ≡ some t) × SameRegular r t.1.registry
unfolding add_property type_of decorate
add_property-some enums p r (m, g) same h =
    let (t, g', typed, same') = type_by-Typed enums p.type p.enum_code r g same h in
    (_, ap (extended p m) typed, same')

add_properties-some :
    (enums : List EnumDefi) (ps : List PropDefi) (r : PropertyTypesRegistry) (s : PropsMap × Memory)
    → SameRegular r s.1.registry
    → All (IsKnown enums r) ps
    → (t : PropsMap × Memory) × (add_properties enums ps s ≡ some t)
unfolding add_properties
add_properties-some enums [] r s same h = (s, refl)
add_properties-some enums (p ∷ ps) r s same h =
    let (t, added, same') = add_property-some enums p r s same h.0 in
    let (u, rest) = add_properties-some enums ps r t same' h.1 in
    (u, properties-added enums p ps s t added ∙ rest)

-- Building a list from a table fails no assertion, if each row's type is registered, or is an
-- enumeration whose code the table of enumerations has.
pub init-some :
    (ps : List PropDefi) (enums : List EnumDefi) (g : Memory)
    → All (IsKnown enums g.registry) ps
    → (s : PropsMap × Memory) × (init ps enums g ≡ some s)
unfolding init
init-some ps enums g h = add_properties-some enums ps g.registry ([], g) refl h

-- Building a list from a table whose rows' types are registered, or are enumerations whose codes the
-- table of enumerations has, fails no assertion. The list has of each name the first row with that
-- name, as a property with the row's default value, and nothing of other names; its names are in
-- their order, and its properties stand in different cells of the memory, none of them set.
pub init-FromTable :
    (ps : List PropDefi) (enums : List EnumDefi) (g : Memory)
    → All (IsKnown enums g.registry) ps
    → (s : PropsMap × Memory) × (init ps enums g ≡ some s)
      × IsFresh s
      × ((name : Text) → FromTable ps s name)
init-FromTable ps enums g h =
    let (s, built) = init-some ps enums g h in
    let (fresh, table) = built-FromTable ps enums g built in (s, built, fresh, table)
