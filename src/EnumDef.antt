-- ===== src/EnumDef.antt =====
-- EnumDef of src/control/types/PropertyTypeEnum.cpp: the entries of an enumerated property, sorted by
-- name, in which std::binary_search looks names up.
pub mod Order
mod Search
mod Tests
use gd2fuse.Base.{
  ℕ, zero, suc, ◌+◌, ◌-◌, ◌/◌, Bool, true, false, not, ◌&&◌, Option, none, some, List, [], ◌∷◌,
  ◌==◌, nat_eq, if◌then◌else◌, length, get_elem?, Text, ltb,
}

-- PropertyTypesRegistry::EnumEntry
pub record EnumEntry : Type 0 where
  pub entry : Text
  pub description : Text

-- `<` of std::string
unfoldable pub less : Text → Text → Bool
less [] [] = false
less [] (_ ∷ _) = true
less (_ ∷ _) [] = false
less (a ∷ s) (b ∷ t) =
    let rest = less s t in if ltb a b then true else if ltb b a then false else rest

-- std::sort by the entries, here as an insertion sort
insert_sorted : EnumEntry → List EnumEntry → List EnumEntry
insert_sorted e [] = e ∷ []
insert_sorted e (x ∷ xs) =
    let rest = insert_sorted e xs in if less e.entry x.entry then e ∷ x ∷ xs else x ∷ rest

-- The constructor.
unfoldable pub enum_def : List EnumEntry → List EnumEntry
unfolding insert_sorted
enum_def [] = []
enum_def (e ∷ es) = insert_sorted e (enum_def es)

-- The loop of std::lower_bound: the range starts at `first` and has `len` elements. Its fuel bounds
-- the number of rounds, and `none` is a read outside of the range or too little fuel.
lower_bound : ℕ → List EnumEntry → Text → ℕ → ℕ → Option ℕ
lower_bound zero es name first len = none
lower_bound (suc k) es name first len =
    let half = len / 2 in
    let step = λ (x : EnumEntry).
      let right = lower_bound k es name (suc (first + half)) (len - half - 1) in
      let left = lower_bound k es name first half in if less x.entry name then right else left in
    if len == 0
    then some first
    else elim (get_elem? es (first + half)) [ none ↦ none | some x ↦ step x ]

abbrev pub answer : List EnumEntry → Text → Option ℕ → Option Bool
answer es name none = none
answer es name (some i) = elim (get_elem? es i) [
  | none ↦ some false
  | some x ↦ some (not (less name x.entry))
]

-- EnumDef::is, on the entries that the constructor has left: std::binary_search
unfoldable pub is : List EnumEntry → Text → Option Bool
unfolding lower_bound
is es name = answer es name (lower_bound (suc (length es)) es name 0 (length es))
