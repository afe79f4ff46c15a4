-- ===== src/Configuration/Chained.antt =====
-- A chain of configurations: iteration, lookups, and where a new value goes.
use gd2fuse.Base.{
  ◌≡◌, ◌≢◌, refl, sym, true, false, none, some, List, [], ◌∷◌, ◌++◌, arith, Text, length,
  length-append,
}
use gd2fuse.Node.{Timespec}
use gd2fuse.Property.{Casts, Property, Store}
use gd2fuse.PropertyList as L
use gd2fuse.PropertyList.{PropsMap, get_properties, get_properties_size}
use gd2fuse.Configuration.{
  PropertiesList, table_list, chained_list, properties_size, PropertyIterator, table_it, chained_it,
  has_next, next, properties, Configuration, simple, chained, get_property, set_property, not_found,
}

-- `while(it->hasNext()) it->next()` ends, and hands out these properties.
pub data Yields : PropertyIterator → List Property → Type 0 where
  ended : {it : PropertyIterator} → has_next it ≡ false → Yields it []
  handed :
      {it it' : PropertyIterator} {p : Property} {ps : List Property}
      → has_next it ≡ true
      → next it ≡ some (p, it')
      → Yields it' ps
      → Yields it (p ∷ ps)

Yields-table : (ps : List Property) → Yields (table_it ps) ps
unfolding has_next next
Yields-table [] = ended refl
Yields-table (p ∷ ps) = handed refl refl (Yields-table ps)

-- The iterator behind the upstream's end.
Yields-current :
    (upstream : PropertyIterator) {current : PropertyIterator} {ps : List Property}
    → Yields current ps
    → Yields (chained_it upstream current false) ps
unfolding has_next next
Yields-current upstream (ended e) = ended e
Yields-current upstream (handed e n y) = handed e (rw n refl) (Yields-current upstream y)

-- The chained iterator while the upstream has properties left; it turns to the current list after
-- the last of them.
Yields-chained :
    {upstream current : PropertyIterator} {p : Property} {ps qs : List Property}
    → Yields upstream (p ∷ ps)
    → Yields current qs
    → Yields (chained_it upstream current true) (p ∷ ps ++ qs)
unfolding has_next next
Yields-chained (handed {it' = u} e n (ended e')) y =
    handed (rw e refl) (rw n (rw e' refl)) (Yields-current u y)
Yields-chained (handed {it' = u} e n (handed e' n' y')) y =
    handed (rw e refl) (rw n (rw e' refl)) (Yields-chained {upstream = u} (handed e' n' y') y)

-- The properties of a list: the upstream's, then the current's.
abbrev pub contents : PropertiesList → List Property
contents (table_list m) = get_properties m
contents (chained_list upstream current) = contents upstream ++ contents current

-- Each chain in a list has properties upstream.
abbrev pub HasUpstream : PropertiesList → Type 0
HasUpstream (table_list m) = Unit
HasUpstream (chained_list upstream current) =
    (contents upstream ≢ []) × HasUpstream upstream × HasUpstream current

nonempty-Yields :
    (u c : PropertyIterator) (ps qs : List Property)
    → ps ≢ []
    → Yields u ps
    → Yields c qs
    → Yields (chained_it u c true) (ps ++ qs)
nonempty-Yields u c [] qs h y z = absurd (h refl)
nonempty-Yields u c (p ∷ ps) qs h y z = Yields-chained y z

-- The iterator of a list, also of a chain of chains, ends, and hands out each property of the
-- upstream list and then each of the current one, if every chain has a property upstream.
pub properties-Yields : (l : PropertiesList) → HasUpstream l → Yields (properties l) (contents l)
unfolding properties
properties-Yields (table_list m) h = Yields-table (get_properties m)
properties-Yields (chained_list u c) h =
    nonempty-Yields (properties u) (properties c) (contents u) (contents c) h.0
      (properties-Yields u h.1) (properties-Yields c h.2)

length-get_properties : (m : PropsMap) → length (get_properties m) ≡ length m
unfolding get_properties
length-get_properties [] = refl
length-get_properties ((_, p) ∷ m) = omega (arith, length-get_properties m)

-- The size of a list is the number of properties that it has.
pub properties_size-contents : (l : PropertiesList) → properties_size l ≡ length (contents l)
unfolding properties_size get_properties_size
properties_size-contents (table_list m) = sym (length-get_properties m)
properties_size-contents (chained_list u c) = omega (
  arith,
  properties_size-contents u,
  properties_size-contents c,
  length-append (contents u) (contents c),
)

-- A chain of two tables whose upstream has no property, but whose current list has one: the iterator
-- says that there is a next property, and reads past the end of the upstream's map to get it.
pub next-empty_upstream :
    (current : PropsMap)
    → current ≢ []
    → (has_next (properties (chained_list (table_list []) (table_list current))) ≡ true)
      × (next (properties (chained_list (table_list []) (table_list current))) ≡ none)
unfolding properties has_next next get_properties
next-empty_upstream [] h = absurd (h refl)
next-empty_upstream ((_, p) ∷ m) h = (refl, refl)

-- In a chain, a property of the upstream configuration that the current one lacks is read through to
-- the upstream's, but cannot be set: that is the error for an unknown property, and nothing changes.
pub chained-set_property :
    (lib : Casts) (now : Timespec) (upstream : Configuration) (current : PropsMap) (name v : Text)
    (st : Store)
    → L.find_property current name ≡ none
    → (get_property (chained upstream (simple current)) name st ≡ get_property upstream name st)
      × (set_property lib now (chained upstream (simple current)) name v st ≡ (some not_found, st))
unfolding get_property set_property
chained-set_property lib now upstream current name v st missing =
    (rw (missing, get_property) refl, rw (missing, set_property) refl)
