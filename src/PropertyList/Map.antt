-- ===== src/PropertyList/Map.antt =====
-- The map of properties, in the order of the names.
use mathlib.Core.Bool.{false≢true}
use mathlib.Core.Logic.{if_pos, if_neg}
use gd2fuse.Base.{
  ◌≡◌, ◌≢◌, refl, sym, ◌∙◌, ◌⊎◌, inl, inr, true, false, Option, none, some, [], ◌∷◌, ◌==◌, nat_eq,
  list_eq, if◌then◌else◌, arith, Text, Bool-cases, All,
}
use gd2fuse.Property.{Property}
use gd2fuse.PropertyList.{PropsMap, map_insert, find_property}
use gd2fuse.EnumDef.{less}
use gd2fuse.EnumDef.Order.{less-asym, less-antisym, less_trans}

abbrev pub IsOrdered : PropsMap → Type 0
IsOrdered [] = Unit
IsOrdered ((j, _) ∷ m) = All (λ e. less j e.0 ≡ true) m × IsOrdered m

abbrev pub or_else : Option Property → Property → Option Property
or_else none p = some p
or_else (some q) p = some q

before-none :
    (k j : Text) (m : PropsMap)
    → less k j ≡ true
    → All (λ e. less j e.0 ≡ true) m
    → find_property m k ≡ none
unfolding find_property
before-none k j [] h a = refl
before-none k j ((i, q) ∷ m) h a = elim (list_eq.dec k i) [
  | yes same ↦ absurd (false≢true (sym (less-asym k j h) ∙ rw same a.0))
  | no differ ↦ rw (if_neg (list_eq.dec k i) differ) (before-none k j m h a.1)
]

-- `map.insert`, seen by lookups.
pub find_property-map_insert :
    (k name : Text) (p : Property) (m : PropsMap)
    → IsOrdered m
    → find_property (map_insert k p m) name
      ≡ (if name == k then or_else (find_property m name) p else find_property m name)
unfolding find_property map_insert
find_property-map_insert k name p [] o = ground arith
find_property-map_insert k name p ((j, q) ∷ m) o =
    ground (arith, before-none k j m, find_property-map_insert k name p m o.1)

not_less : (k j : Text) → k ≢ j → less k j ≡ false → less j k ≡ true
not_less k j h g = elim (Bool-cases (less j k)) [
  | inl p ↦ p
  | inr p ↦ absurd (h (less-antisym k j g p))
]

All-trans :
    (k j : Text) (m : PropsMap)
    → less k j ≡ true
    → All (λ e. less j e.0 ≡ true) m
    → All (λ e. less k e.0 ≡ true) m
All-trans k j [] h a = tt
All-trans k j ((i, q) ∷ m) h a = (less_trans k j i h a.0, All-trans k j m h a.1)

All-map_insert :
    (j k : Text) (p : Property) (m : PropsMap)
    → less j k ≡ true
    → All (λ e. less j e.0 ≡ true) m
    → All (λ e. less j e.0 ≡ true) (map_insert k p m)
unfolding map_insert
All-map_insert j k p [] h a = (h, tt)
All-map_insert j k p ((i, q) ∷ m) h a = elim (Bool-cases (k == i)) [
  | inl same ↦ rw same a
  | inr differ ↦ elim (Bool-cases (less k i)) [
    | inl here ↦ rw (differ, here) (h, a)
    | inr later ↦ rw (differ, later) (a.0, All-map_insert j k p m h a.1)
  ]
]

-- Insertions keep the order.
pub map_insert-IsOrdered :
    (k : Text) (p : Property) (m : PropsMap) → IsOrdered m → IsOrdered (map_insert k p m)
unfolding map_insert
map_insert-IsOrdered k p [] o = (tt, tt)
map_insert-IsOrdered k p ((j, q) ∷ m) o = elim (list_eq.dec k j) [
  | yes same ↦ rw (if_pos (list_eq.dec k j) same) o
  | no differ ↦ rw (if_neg (list_eq.dec k j) differ) (elim (Bool-cases (less k j)) [
    | inl here ↦ rw here ((here, All-trans k j m here o.0), o)
    | inr later ↦
        rw later
          (All-map_insert j k p m (not_less k j differ later) o.0, map_insert-IsOrdered k p m o.1)
  ])
]

-- A property found in a map with a new entry: it was there, or it is the new one.
pub insert-cases :
    (k name : Text) (v p : Property) (m : PropsMap)
    → IsOrdered m
    → find_property (map_insert k v m) name ≡ some p
    → (find_property m name ≡ some p) ⊎ ((name ≡ k) × (find_property m name ≡ none) × (v ≡ p))
insert-cases k name v p m o h =
    let e = sym (find_property-map_insert k name v m o) ∙ h in
    elim (list_eq.dec name k) [
      | yes same ↦ chosen same (find_property m name) (rw (if_pos (list_eq.dec name k) same) at e)
      | no other ↦ inl (rw (if_neg (list_eq.dec name k) other) at e)
    ]
  where
    chosen :
        name ≡ k
        → (f : Option Property) → or_else f v ≡ some p
        → (f ≡ some p) ⊎ ((name ≡ k) × (f ≡ none) × (v ≡ p))
    chosen same none e = inr (same, refl, cc)
    chosen same (some q) e = inl e
