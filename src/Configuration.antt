-- ===== src/Configuration.antt =====
-- Configurations and their lists of properties: GlobalConfiguration (src/control/Configuration.cpp),
-- AbstractGoogleConfiguration (src/providers/google/GoogleProvider.cpp), and the chain of two of them
-- (src/control/ChainedCofiguration.cpp), with a constructor for each class. The details of errors are
-- left out.
pub mod Tables
pub mod Refinement
pub mod Chained
mod Tests
use mathlib.Core.Option
use gd2fuse.Base.{
  ℕ, ◌+◌, Bool, true, false, ◌&&◌, Option, none, some, List, [], ◌∷◌, ◌++◌, if◌then◌else◌, Text,
}
use gd2fuse.AppError.{code_value, property_not_found}
use gd2fuse.Node.{Timespec}
use gd2fuse.Outcome.{Error, app_category}
use gd2fuse.Property.{Casts, Property, Store, get_value, set_value}
use gd2fuse.PropertyList as L
use gd2fuse.PropertyList.{PropsMap}

-- IPropertiesList: a list from tables, or ChainedPropertiesList
pub data PropertiesList : Type 0 where
  table_list : PropsMap → PropertiesList
  chained_list : PropertiesList → PropertiesList → PropertiesList

unfoldable pub find_in : PropertiesList → Text → Option Property
find_in (table_list m) name = L.find_property m name
find_in (chained_list upstream current) name =
    let in_upstream = find_in upstream name in
    elim (find_in current name) [ some p ↦ some p | none ↦ in_upstream ]

unfoldable pub is_empty : PropertiesList → Bool
is_empty (table_list m) = L.is_empty m
is_empty (chained_list upstream current) = is_empty current && is_empty upstream

unfoldable pub properties_size : PropertiesList → ℕ
properties_size (table_list m) = L.get_properties_size m
properties_size (chained_list upstream current) = properties_size current + properties_size upstream

-- IPropertyIterator: over a map, or ChainedPropertyIterator with the flag whether `_it` points to the
-- upstream's iterator
pub data PropertyIterator : Type 0 where
  table_it : List Property → PropertyIterator
  chained_it : PropertyIterator → PropertyIterator → Bool → PropertyIterator

unfoldable pub has_next : PropertyIterator → Bool
has_next (table_it []) = false
has_next (table_it (_ ∷ _)) = true
has_next (chained_it upstream current true) =
    let more = has_next current in if has_next upstream then true else more
has_next (chained_it upstream current false) = has_next current

abbrev pub NextResult : Type 0
NextResult = Option (Property × PropertyIterator)

abbrev pub advance_upstream : PropertyIterator → NextResult → NextResult
advance_upstream current none = none
advance_upstream current (some (ret, it)) = some (ret, chained_it it current (has_next it))

abbrev pub advance_current : PropertyIterator → NextResult → NextResult
advance_current upstream none = none
advance_current upstream (some (ret, it)) = some (ret, chained_it upstream it false)

-- `next()`; `none` is the dereference of an iterator at its end
unfoldable pub next : PropertyIterator → NextResult
unfolding has_next
next (table_it []) = none
next (table_it (p ∷ ps)) = some (p, table_it ps)
next (chained_it upstream current true) = advance_upstream current (next upstream)
next (chained_it upstream current false) = advance_current upstream (next current)

-- getProperties
unfoldable pub properties : PropertiesList → PropertyIterator
properties (table_list m) = table_it (L.get_properties m)
properties (chained_list upstream current) =
    chained_it (properties upstream) (properties current) true

-- IConfiguration: GlobalConfiguration and AbstractGoogleConfiguration, which do the same with their
-- lists, and ChainedConfiguration
pub data Configuration : Type 0 where
  simple : PropsMap → Configuration
  chained : Configuration → Configuration → Configuration

unfoldable pub get_property : Configuration → Text → Store → Option Text
get_property (simple props) name st = Option.map (λ p. get_value p st) (L.find_property props name)
get_property (chained upstream current) name st =
    let in_upstream = get_property upstream name st in
    elim (get_property current name st) [ some v ↦ some v | none ↦ in_upstream ]

abbrev pub not_found : Error
not_found = record { value = code_value property_not_found; category = app_category; detail = "" }

unfoldable pub set_property :
    Casts → Timespec → Configuration → Text → Text → Store → Option Error × Store
set_property lib now (simple props) name value st = elim (L.find_property props name) [
  | some p ↦ set_value lib now p value st
  | none ↦ (some not_found, st)
]
set_property lib now (chained upstream current) name value st =
    set_property lib now current name value st

unfoldable pub properties_list : Configuration → PropertiesList
properties_list (simple props) = table_list props
properties_list (chained upstream current) =
    chained_list (properties_list upstream) (properties_list current)
