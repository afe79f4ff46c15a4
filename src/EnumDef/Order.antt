-- ===== src/EnumDef/Order.antt =====
-- The order of texts, and that the constructor sorts.
use gd2fuse.Base.{
  ◌≡◌, refl, ◌↔◌, ◌⊎◌, inl, inr, true, false, some, List, [], ◌∷◌, arith, get_elem?, suc, zero, ℕ,
  ◌≤◌, All, Text, Bool-cases,
}
use gd2fuse.EnumDef.{EnumEntry, less, insert_sorted, enum_def}

pub less_irrefl : (s : Text) → less s s ≡ false
unfolding less
less_irrefl [] = refl
less_irrefl (a ∷ s) = ground (arith, less_irrefl s)

pub less-asym : (s t : Text) → less s t ≡ true → less t s ≡ false
unfolding less
less-asym [] [] h = cc
less-asym [] (_ ∷ _) h = refl
less-asym (_ ∷ _) [] h = cc
less-asym (a ∷ s) (b ∷ t) h = ground (arith, less-asym s t)

-- Neither is before the other only if they are the same.
pub less-antisym : (s t : Text) → less s t ≡ false → less t s ≡ false → s ≡ t
unfolding less
less-antisym [] [] h g = refl
less-antisym [] (_ ∷ _) h g = cc
less-antisym (_ ∷ _) [] h g = cc
less-antisym (a ∷ s) (b ∷ t) h g = ground (arith, less-antisym s t)

-- "not after" is transitive
pub not_less_trans : (s t u : Text) → less t s ≡ false → less u t ≡ false → less u s ≡ false
unfolding less
not_less_trans [] [] u h g = g
not_less_trans [] (_ ∷ _) [] h g = cc
not_less_trans [] (_ ∷ _) (_ ∷ _) h g = refl
not_less_trans (_ ∷ _) [] u h g = cc
not_less_trans (_ ∷ _) (_ ∷ _) [] h g = cc
not_less_trans (a ∷ s) (b ∷ t) (c ∷ u) h g = ground (arith, not_less_trans s t u)

pub less_trans : (s t u : Text) → less s t ≡ true → less t u ≡ true → less s u ≡ true
unfolding less
less_trans [] [] u h g = cc
less_trans [] (_ ∷ _) [] h g = cc
less_trans [] (_ ∷ _) (_ ∷ _) h g = refl
less_trans (_ ∷ _) [] u h g = cc
less_trans (_ ∷ _) (_ ∷ _) [] h g = cc
less_trans (a ∷ s) (b ∷ t) (c ∷ u) h g = ground (arith, less_trans s t u)

abbrev pub NotAfter : EnumEntry → EnumEntry → Type 0
NotAfter x y = less y.entry x.entry ≡ false

abbrev pub IsSorted : List EnumEntry → Type 0
IsSorted [] = Unit
IsSorted (x ∷ xs) = All (NotAfter x) xs × IsSorted xs

All-NotAfter :
    (x y : EnumEntry) (ys : List EnumEntry)
    → NotAfter x y
    → All (NotAfter y) ys
    → All (NotAfter x) ys
All-NotAfter x y [] h a = tt
All-NotAfter x y (z ∷ zs) h a =
    (not_less_trans x.entry y.entry z.entry h a.0, All-NotAfter x y zs h a.1)

All-insert_sorted :
    (x e : EnumEntry) (xs : List EnumEntry)
    → NotAfter x e
    → All (NotAfter x) xs
    → All (NotAfter x) (insert_sorted e xs)
unfolding insert_sorted
All-insert_sorted x e [] h a = (h, tt)
All-insert_sorted x e (y ∷ ys) h a = elim (Bool-cases (less e.entry y.entry)) [
  | inl p ↦ rw p (h, a)
  | inr p ↦ rw p (a.0, All-insert_sorted x e ys h a.1)
]

insert_sorted-IsSorted :
    (e : EnumEntry) (xs : List EnumEntry) → IsSorted xs → IsSorted (insert_sorted e xs)
unfolding insert_sorted
insert_sorted-IsSorted e [] s = (tt, tt)
insert_sorted-IsSorted e (x ∷ xs) s = elim (Bool-cases (less e.entry x.entry)) [
  | inl p ↦
      let front = less-asym e.entry x.entry p in rw p ((front, All-NotAfter e x xs front s.0), s)
  | inr p ↦ rw p (All-insert_sorted x e xs p s.0, insert_sorted-IsSorted e xs s.1)
]

pub enum_def-IsSorted : (es : List EnumEntry) → IsSorted (enum_def es)
unfolding enum_def
enum_def-IsSorted [] = tt
enum_def-IsSorted (e ∷ es) = insert_sorted-IsSorted e (enum_def es) (enum_def-IsSorted es)

-- A name among the entries.
abbrev pub Listed : Text → List EnumEntry → Type 0
Listed name [] = ⊥
Listed name (x ∷ xs) = (x.entry ≡ name) ⊎ Listed name xs

Listed-insert_sorted :
    (name : Text) (e : EnumEntry) (xs : List EnumEntry)
    → Listed name (insert_sorted e xs) ↔ Listed name (e ∷ xs)
unfolding insert_sorted
Listed-insert_sorted name e [] = (λ h. h, λ h. h)
Listed-insert_sorted name e (x ∷ xs) = elim (Bool-cases (less e.entry x.entry)) [
  | inl p ↦ rw p (λ h. h, λ h. h)
  | inr p ↦
      let ih = Listed-insert_sorted name e xs in
      rw p (λ h. ground (arith, ih.0), λ h. ground (arith, ih.1))
]

pub Listed-enum_def :
    (name : Text) (es : List EnumEntry) → Listed name (enum_def es) ↔ Listed name es
unfolding enum_def
Listed-enum_def name [] = (λ h. h, λ h. h)
Listed-enum_def name (e ∷ es) =
    let at = Listed-insert_sorted name e (enum_def es) in
    let ih = Listed-enum_def name es in
    (
      λ h. elim (at.0 h) [ inl e' ↦ inl e' | inr t ↦ inr (ih.0 t) ],
      λ h. at.1 (elim h [ inl e' ↦ inl e' | inr t ↦ inr (ih.1 t) ]),
    )

-- Sorted by index: no entry is after a later one.
pub IsSorted-get :
    (es : List EnumEntry) (i j : ℕ) {x y : EnumEntry}
    → IsSorted es
    → i ≤ j
    → get_elem? es i ≡ some x
    → get_elem? es j ≡ some y
    → less y.entry x.entry ≡ false
IsSorted-get [] i j s h p q = cc
IsSorted-get (e ∷ es) zero zero {x} {y} s h p q =
    let same : x ≡ y = cc in rw same (less_irrefl y.entry)
IsSorted-get (e ∷ es) zero (suc j) {x} {y} s h p q =
    let same : e ≡ x = cc in rw (← same) (later es j s.0 q)
  where
    later :
        (xs : List EnumEntry) (k : ℕ) {z : EnumEntry}
        → All (NotAfter e) xs
        → get_elem? xs k ≡ some z
        → less z.entry e.entry ≡ false
    later [] k a at = cc
    later (w ∷ ws) zero {z} a at = let same : w ≡ z = cc in rw (← same) a.0
    later (w ∷ ws) (suc k) a at = later ws k a.1 at
IsSorted-get (e ∷ es) (suc i) zero s h p q = absurd (omega arith)
IsSorted-get (e ∷ es) (suc i) (suc j) s h p q = IsSorted-get es i j s.1 (omega arith) p q

pub Listed-get :
    (name : Text) (es : List EnumEntry)
    → Listed name es
    → (i : ℕ) × (x : EnumEntry) × (get_elem? es i ≡ some x) × (x.entry ≡ name)
Listed-get name [] h = elim h [ ]
Listed-get name (x ∷ xs) (inl e) = (zero, x, refl, e)
Listed-get name (x ∷ xs) (inr h) = let (i, y, at, e) = Listed-get name xs h in (suc i, y, at, e)

pub get-Listed :
    (name : Text) (es : List EnumEntry) (i : ℕ) {x : EnumEntry}
    → get_elem? es i ≡ some x
    → x.entry ≡ name
    → Listed name es
get-Listed name [] i at e = cc
get-Listed name (y ∷ ys) zero {x} at e = let same : y ≡ x = cc in inl (rw same e)
get-Listed name (y ∷ ys) (suc i) at e = inr (get-Listed name ys i at e)
