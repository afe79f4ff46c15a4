-- ===== src/PropertyList/Fresh.antt =====
-- The cells of the properties of a list that is being built.
use gd2fuse.Base.{
  ℕ, suc, ◌<◌, ◌≡◌, ◌≢◌, refl, sym, ap, ◌∙◌, ◌⊎◌, inl, inr, Option, none, some, List, [], ◌==◌,
  nat_eq, list_eq, if◌then◌else◌, arith, Text,
}
use mathlib.Core.Path.{ap₂}
use gd2fuse.Node.{zero_time}
use gd2fuse.Property.{
  TypeName, enum, uint, oint, bool, path, PropertyType, PropDefi, Property, Cell, Store, put,
}
use gd2fuse.PropertyList.{
  get_type, EnumDefi, find_enum_defi, PropsMap, map_insert, Memory, type_of, decorate, add_property,
  find_property, extended, type_by, registered, with_memory,
}
use gd2fuse.PropertyList.Map.{
  IsOrdered, insert-cases, map_insert-IsOrdered, find_property-map_insert, or_else,
}

abbrev pub empty_cell : Cell
empty_cell = record { value = []; last_change = zero_time }

-- The properties of a list stand in different cells below the next free one, and none has been set.
pub record IsFresh (s : PropsMap × Memory) : Type 0 where
  pub ordered : IsOrdered s.0
  pub below : (name : Text) (p : Property) → find_property s.0 name ≡ some p → p.cell < s.1.fresh
  pub apart :
      (a b : Text) (p q : Property)
      → a ≢ b
      → find_property s.0 a ≡ some p
      → find_property s.0 b ≡ some q
      → p.cell ≢ q.cell
  pub unset :
      (name : Text) (p : Property) → find_property s.0 name ≡ some p → s.1.store p.cell ≡ empty_cell

registered-memory :
    (g g' : Memory) (t : PropertyType) (code : Text) (o : Option EnumDefi)
    → registered g code o ≡ some (t, g')
    → (g'.fresh ≡ g.fresh) × (g'.store ≡ g.store)
registered-memory g g' t code none h = cc
registered-memory g g' t code (some ed) h = ground arith

with_memory-memory :
    (g g' : Memory) (t : PropertyType) (o : Option PropertyType)
    → with_memory g o ≡ some (t, g')
    → (g'.fresh ≡ g.fresh) × (g'.store ≡ g.store)
with_memory-memory g g' t none h = cc
with_memory-memory g g' t (some u) h = ground arith

type_by-memory :
    (enums : List EnumDefi) (n : TypeName) (code : Option Text) (g g' : Memory) (t : PropertyType)
    → type_by enums n code g ≡ some (t, g')
    → (g'.fresh ≡ g.fresh) × (g'.store ≡ g.store)
type_by-memory enums enum none g g' t h = cc
type_by-memory enums enum (some code) g g' t h =
    registered-memory g g' t code (find_enum_defi enums code) h
type_by-memory enums uint code g g' t h = with_memory-memory g g' t (get_type g.registry uint) h
type_by-memory enums oint code g g' t h = with_memory-memory g g' t (get_type g.registry oint) h
type_by-memory enums bool code g g' t h = with_memory-memory g g' t (get_type g.registry bool) h
type_by-memory enums path code g g' t h = with_memory-memory g g' t (get_type g.registry path) h

type_of-memory :
    (enums : List EnumDefi) (p : PropDefi) (g g' : Memory) (t : PropertyType)
    → type_of enums p g ≡ some (t, g')
    → (g'.fresh ≡ g.fresh) × (g'.store ≡ g.store)
unfolding type_of
type_of-memory enums p g g' t h = type_by-memory enums p.type p.enum_code g g' t h

-- A round of the constructor: one property, in a cell of its own.
abbrev pub Added : PropDefi → PropsMap × Memory → PropsMap × Memory → Property → Type 0
Added p s s' pd =
    (pd.upstream.p ≡ p)
    × (pd.cell ≡ s.1.fresh)
    × (s'.0 ≡ map_insert p.name pd s.0)
    × (s'.1.fresh ≡ suc s.1.fresh)
    × (s'.1.store ≡ put s.1.store s.1.fresh empty_cell)

extended-Added :
    (p : PropDefi) (props : PropsMap) (g : Memory) (s' : PropsMap × Memory)
    (o : Option (PropertyType × Memory))
    → ((t : PropertyType) (g' : Memory)
        → o ≡ some (t, g')
        → (g'.fresh ≡ g.fresh) × (g'.store ≡ g.store))
    → extended p props o ≡ some s'
    → (pd : Property) × Added p (props, g) s' pd
unfolding decorate
extended-Added p props g s' none same h = cc
extended-Added p props g s' (some (t, g')) same h =
    let kept = same t g' refl in
    let pd : Property = record { upstream = record { p = p; type = t }; cell = g'.fresh } in
    let e : s' ≡ (map_insert p.name pd props, (decorate (record { p = p; type = t }) g').1) = cc in
    (
      pd,
      (
        refl,
        kept.0,
        ap (λ (x : PropsMap × Memory). x.0) e,
        fresh_of e (ap suc kept.0),
        store_of e (ap₂ (λ (st : Store) (a : ℕ). put st a empty_cell) kept.1 kept.0),
      ),
    )
  where
    fresh_of : {x : PropsMap × Memory} → s' ≡ x → x.1.fresh ≡ suc g.fresh → s'.1.fresh ≡ suc g.fresh
    fresh_of e h = ap (λ (x : PropsMap × Memory). x.1.fresh) e ∙ h

    store_of :
        {x : PropsMap × Memory}
        → s' ≡ x
        → x.1.store ≡ put g.store g.fresh empty_cell
        → s'.1.store ≡ put g.store g.fresh empty_cell
    store_of e h = ap (λ (x : PropsMap × Memory). x.1.store) e ∙ h

pub add_property-Added :
    (enums : List EnumDefi) (p : PropDefi) (s s' : PropsMap × Memory)
    → add_property enums p s ≡ some s'
    → (pd : Property) × Added p s s' pd
unfolding add_property
add_property-Added enums p (props, g) s' h =
    extended-Added p props g s' (type_of enums p g)
      (λ t g' typed. type_of-memory enums p g g' t typed) h

old-cell : (st : Store) (a b : ℕ) → b < a → st b ≡ empty_cell → put st a empty_cell b ≡ empty_cell
unfolding nat_eq
old-cell st a b l h = ground (arith, h)

new-cell : (st : Store) (a : ℕ) → put st a empty_cell a ≡ empty_cell
unfolding nat_eq
new-cell st a = ground arith

module _ (p : PropDefi) (s s' : PropsMap × Memory) (pd : Property) (a : Added p s s' pd) where
  -- What is found after a round: what was, or the new property.
  found-cases :
      IsOrdered s.0
      → (name : Text) (q : Property) → find_property s'.0 name ≡ some q
      → (find_property s.0 name ≡ some q) ⊎ ((name ≡ p.name) × (pd ≡ q))
  found-cases o name q h = elim (insert-cases p.name name pd q s.0 o (rw a.2 at h)) [
    | inl old ↦ inl old
    | inr new ↦ inr (new.0, new.2)
  ]

  pub Added-IsFresh : IsFresh s → IsFresh s'
  Added-IsFresh f = record {
    ordered = rw a.2 (map_insert-IsOrdered p.name pd s.0 f.ordered);
    below = λ name q h. elim (found-cases f.ordered name q h) [
      | inl old ↦ omega (arith, f.below name q old, a.3)
      | inr (_, e) ↦ rw (← e) (omega (arith, a.1, a.3))
    ];
    apart = λ x y q r differ hq hr. elim (found-cases f.ordered x q hq) [
      | inl old ↦ elim (found-cases f.ordered y r hr) [
        | inl old' ↦ f.apart x y q r differ old old'
        | inr (_, e) ↦ λ same.
            absurd (omega (arith, f.below x q old, a.1, ap (λ (z : Property). z.cell) e, same))
      ]
      | inr (m, e) ↦ elim (found-cases f.ordered y r hr) [
        | inl old' ↦ λ same.
            absurd (omega (arith, f.below y r old', a.1, ap (λ (z : Property). z.cell) e, same))
        | inr (m', e') ↦ absurd (differ (m ∙ sym m'))
      ]
    ];
    unset = λ name q h. elim (found-cases f.ordered name q h) [
      | inl old ↦
          rw a.4 (old-cell s.1.store s.1.fresh q.cell (f.below name q old) (f.unset name q old))
      | inr (_, e) ↦ rw a.4 (rw (← e) (rw a.1 (new-cell s.1.store s.1.fresh)))
    ];
  }

  pub found-new :
      IsOrdered s.0
      → (name : Text)
      → find_property s'.0 name
        ≡ (if name == p.name then or_else (find_property s.0 name) pd else find_property s.0 name)
  found-new o name = rw a.2 (find_property-map_insert p.name name pd s.0 o)
