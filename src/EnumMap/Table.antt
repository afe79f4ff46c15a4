-- ===== src/EnumMap/Table.antt =====
-- Values and names of an enumeration, each found from the other.
use gd2fuse.Base.{
  ℕ, zero, suc, ◌+◌, ◌≡◌, ◌≢◌, sym, ap, ◌∙◌, some, [], ◌∷◌, nat_eq, arith, get_elem?, All, Text,
  to_lower, same, same-true, same_refl, Bool-cases, inl, inr,
}
use gd2fuse.EnumMap.{
  EnumMap, EnumMapItem, chars_equal, equal_ignore_case, enum_loop, string_loop, to_enum,
  string_to_enum, to_string,
}

abbrev pub DistinctValues : EnumMap → Type 0
DistinctValues [] = Unit
DistinctValues (x ∷ m) = All (λ y. y.value ≢ x.value) m × DistinctValues m

-- Different, also without regard to case.
abbrev pub DistinctNames : EnumMap → Type 0
DistinctNames [] = Unit
DistinctNames (x ∷ m) = All (λ y. to_lower y.str ≢ to_lower x.str) m × DistinctNames m

pub equal_ignore_case-same : (s t : Text) → equal_ignore_case s t ≡ same (to_lower s) (to_lower t)
unfolding equal_ignore_case same chars_equal
equal_ignore_case-same [] [] = ground arith
equal_ignore_case-same [] (_ ∷ _) = ground arith
equal_ignore_case-same (_ ∷ _) [] = ground arith
equal_ignore_case-same (a ∷ s) (b ∷ t) = ground (arith, equal_ignore_case-same s t)

pub fresh-at :
    (e : ℕ) (m : EnumMap) (j : ℕ) {x : EnumMapItem}
    → All (λ y. y.value ≢ e) m
    → get_elem? m j ≡ some x
    → x.value ≢ e
fresh-at e [] j h at = cc
fresh-at e (y ∷ m) zero h at = ground arith
fresh-at e (y ∷ m) (suc j) h at = fresh-at e m j h.1 at

name-at :
    (s : Text) (m : EnumMap) (j : ℕ) {x : EnumMapItem}
    → All (λ y. to_lower y.str ≢ to_lower s) m
    → get_elem? m j ≡ some x
    → to_lower x.str ≢ to_lower s
name-at s [] j h at = cc
name-at s (y ∷ m) zero h at = λ p. h.0 (ap (λ z. to_lower z.str) (some_eq at) ∙ p)
  where
    some_eq : {z : EnumMapItem} → some y ≡ some z → y ≡ z
    some_eq q = cc
name-at s (y ∷ m) (suc j) h at = name-at s m j h.1 at

enum_loop-at :
    (m : EnumMap) (i j : ℕ) {x : EnumMapItem}
    → DistinctValues m
    → get_elem? m j ≡ some x
    → enum_loop i m x.value ≡ some (j + i)
unfolding enum_loop nat_eq
enum_loop-at [] i j d at = cc
enum_loop-at (y ∷ m) i zero d at = ground arith
enum_loop-at (y ∷ m) i (suc j) d at =
    ground (arith, fresh-at y.value m j d.0 at, enum_loop-at m (suc i) j d.1 at)

string_loop-at :
    (m : EnumMap) (i j : ℕ) (s : Text) {x : EnumMapItem}
    → DistinctNames m
    → get_elem? m j ≡ some x
    → to_lower x.str ≡ to_lower s
    → string_loop i m s ≡ some (j + i)
unfolding string_loop
string_loop-at [] i j s d at e = cc
string_loop-at (y ∷ m) i zero s {x} d at e = rw (equal_ignore_case-same y.str s) (
    rw (ap (λ (z : EnumMapItem). to_lower z.str) (some_eq at) ∙ e)
      (rw same_refl (ap some (omega arith))))
  where
    some_eq : {z : EnumMapItem} → some y ≡ some z → y ≡ z
    some_eq q = cc
string_loop-at (y ∷ m) i (suc j) s {x} d at e =
    let ih = string_loop-at m (suc i) j s d.1 at e in
    elim (Bool-cases (equal_ignore_case y.str s)) [
      | inl hit ↦ absurd (
          name-at y.str m j d.0 at
            (e ∙ sym (same-true _ _ (sym (equal_ignore_case-same y.str s) ∙ hit))))
      | inr miss ↦ rw miss (ih ∙ ap some (omega arith))
    ]

-- With values and names all different (the names also in lower case), for each entry of the table:
-- its value is an enumerator, whose name is the entry's; and that name, in whatever case it is
-- written, is read back as the value.
pub string_to_enum-to_string :
    (m : EnumMap) (j : ℕ) (s : Text) {x : EnumMapItem}
    → DistinctValues m
    → DistinctNames m
    → get_elem? m j ≡ some x
    → to_lower x.str ≡ to_lower s
    → (to_enum m x.value ≡ some x.value)
      × (to_string m x.value ≡ some (some x.str))
      × (string_to_enum m (some s) ≡ some x.value)
unfolding to_enum to_string string_to_enum
string_to_enum-to_string m j s {x} values names at same_name =
    let by_value = enum_loop-at m 0 j values at in
    let by_name = string_loop-at m 0 j s names at same_name in ground (arith, by_value, by_name)
