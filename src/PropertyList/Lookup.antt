-- ===== src/PropertyList/Lookup.antt =====
-- What a list that is built from the tables has, by name.
use gd2fuse.Base.{
  ◌≡◌, refl, sym, ap, ◌∙◌, ◌⊎◌, inl, inr, Option, none, some, List, [], ◌∷◌, ◌==◌, nat_eq, list_eq,
  if◌then◌else◌, arith, Text, Bool-cases, Option-cases,
}
use mathlib.Core.Path.{subst}
use mathlib.Core.Option.{some-injective, none-ne-some}
use gd2fuse.Property.{PropDefi, Property, Store, get_value}
use gd2fuse.PropertyList.{
  EnumDefi, PropsMap, Memory, add_property, add_properties, init, find_property,
}
use gd2fuse.PropertyList.Map.{or_else}
use gd2fuse.PropertyList.Fresh.{empty_cell, IsFresh, add_property-Added, Added-IsFresh, found-new}

unfoldable pub first_defi : List PropDefi → Text → Option PropDefi
first_defi [] name = none
first_defi (p ∷ ps) name = if name == p.name then some p else first_defi ps name

-- What the list has of a name, against the table and what was there before.
Found : List PropDefi → Text → Option Property → Option Property → Type 0
Found ps name (some q) r = r ≡ some q
Found ps name none r =
    ((first_defi ps name ≡ none) × (r ≡ none))
    ⊎ ((p : PropDefi) × (q : Property) × (first_defi ps name ≡ some p)
        × (r ≡ some q)
        × (q.upstream.p ≡ p))

Found-step :
    (p : PropDefi) (ps : List PropDefi) (name : Text) (pd : Property) (o r : Option Property)
    → pd.upstream.p ≡ p
    → Found ps name (if name == p.name then or_else o pd else o) r
    → Found (p ∷ ps) name o r
unfolding Found first_defi
Found-step p ps name pd (some q) r e h = elim (Bool-cases (name == p.name)) [
  | inl same ↦ rw same at h
  | inr differ ↦ rw differ at h
]
Found-step p ps name pd none r e h = elim (Bool-cases (name == p.name)) [
  | inl same ↦ rw same (inr (p, pd, refl, rw same at h, e))
  | inr differ ↦ rw differ (rw differ at h)
]

module _ (enums : List EnumDefi) (p : PropDefi) (ps : List PropDefi) (s : PropsMap × Memory) where
  properties-failed : add_property enums p s ≡ none → add_properties enums (p ∷ ps) s ≡ none
  unfolding add_properties
  properties-failed h = ground (arith, h)

  pub properties-added :
      (t : PropsMap × Memory)
      → add_property enums p s ≡ some t
      → add_properties enums (p ∷ ps) s ≡ add_properties enums ps t
  unfolding add_properties
  properties-added t h = ground (arith, h)

add_properties-nil :
    (enums : List EnumDefi) (s : PropsMap × Memory) → add_properties enums [] s ≡ some s
unfolding add_properties
add_properties-nil enums s = refl

Found-nil : (name : Text) (o : Option Property) → Found [] name o o
unfolding Found first_defi
Found-nil name none = inl (refl, refl)
Found-nil name (some q) = refl

abbrev Built : List PropDefi → PropsMap × Memory → PropsMap × Memory → Type 0
Built ps s s' =
    IsFresh s' × ((name : Text) → Found ps name (find_property s.0 name) (find_property s'.0 name))

add_properties-Built :
    (enums : List EnumDefi) (ps : List PropDefi) (s s' : PropsMap × Memory)
    → IsFresh s
    → add_properties enums ps s ≡ some s'
    → Built ps s s'
add_properties-Built enums [] s s' f h =
    subst (Built [] s) (some-injective _ _ (sym (add_properties-nil enums s) ∙ h))
      (f, λ name. Found-nil name (find_property s.0 name))
add_properties-Built enums (p ∷ ps) s s' f h = elim (Option-cases (add_property enums p s)) [
  | inl failed ↦ absurd (none-ne-some _ (sym (properties-failed enums p ps s failed) ∙ h))
  | inr (t, added) ↦
      let (pd, a) = add_property-Added enums p s t added in
      let ih =
        add_properties-Built enums ps t s' (Added-IsFresh p s t pd a f)
          (sym (properties-added enums p ps s t added) ∙ h) in
      (
        ih.0,
        λ name. Found-step p ps name pd (find_property s.0 name) (find_property s'.0 name) a.0 (
            subst (λ (o : Option Property). Found ps name o (find_property s'.0 name))
              (found-new p s t pd a f.ordered name) (ih.1 name)),
      )
]

-- What a list has, of each name, after it has been built from the table: nothing, if no row has the
-- name, and otherwise a property of the first row with the name, with that row's default value.
abbrev pub FromTable : List PropDefi → PropsMap × Memory → Text → Type 0
FromTable ps s name =
    ((first_defi ps name ≡ none) × (find_property s.0 name ≡ none))
    ⊎ ((p : PropDefi) × (q : Property) × (first_defi ps name ≡ some p)
        × (find_property s.0 name ≡ some q)
        × (q.upstream.p ≡ p)
        × (get_value q s.1.store ≡ p.default_value))

fresh-value :
    (q : Property) (st : Store)
    → st q.cell ≡ empty_cell
    → get_value q st ≡ q.upstream.p.default_value
unfolding get_value nat_eq
fresh-value q st h = ground (arith, h)

init-IsFresh : (g : Memory) → IsFresh ([], g)
unfolding find_property
init-IsFresh g = record {
  ordered = tt;
  below = λ name p h. cc;
  apart = λ a b p q differ h. cc;
  unset = λ name p h. cc;
}

from-Found :
    (ps : List PropDefi) (g : Memory) (s : PropsMap × Memory) (name : Text)
    → IsFresh s
    → Found ps name (find_property [] name) (find_property s.0 name)
    → FromTable ps s name
unfolding Found find_property
from-Found ps g s name f (inl h) = inl h
from-Found ps g s name f (inr (p, q, row, found, e)) = inr (
  p,
  q,
  row,
  found,
  e,
  fresh-value q s.1.store (f.unset name q found) ∙ ap (λ (x : PropDefi). x.default_value) e,
)

-- The list that is built from a table has of each name the first row with that name, as a property
-- with the row's default value, and nothing of other names; its names are in their order, and its
-- properties stand in different cells of the memory.
pub built-FromTable :
    (ps : List PropDefi) (enums : List EnumDefi) (g : Memory) {s : PropsMap × Memory}
    → init ps enums g ≡ some s
    → IsFresh s × ((name : Text) → FromTable ps s name)
unfolding init
built-FromTable ps enums g {s} h =
    let (fresh, found) = add_properties-Built enums ps ([], g) s (init-IsFresh g) h in
    (fresh, λ name. from-Found ps g s name fresh (found name))
