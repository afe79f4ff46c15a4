-- ===== src/EnumDef/Search.antt =====
-- The binary search finds a name exactly if an entry has it.
use gd2fuse.Base.{
  ◌≡◌, ◌≢◌, refl, sym, ap, ◌∙◌, ◌↔◌, inl, inr, Bool, true, false, not, some, List, [], ◌∷◌, arith,
  get_elem?, suc, zero, ℕ, ◌≤◌, ◌<◌, ◌+◌, ◌-◌, ◌/◌, nat_eq, length, Text, Bool-cases, Option-cases,
}
use native.Mathlib.Decide.{ℕ_discrete, dec_lt}
use mathlib.Core.Bool.{false≢true}
use gd2fuse.EnumDef.{EnumEntry, less, enum_def, lower_bound, is, answer}
use gd2fuse.EnumDef.Order.{
  less_irrefl, less-antisym, not_less_trans, IsSorted, enum_def-IsSorted, Listed, Listed-enum_def,
  IsSorted-get, Listed-get, get-Listed,
}

get-length :
    (es : List EnumEntry) (i : ℕ) → i < length es → (x : EnumEntry) × (get_elem? es i ≡ some x)
get-length [] i h = absurd (omega arith)
get-length (x ∷ xs) zero h = (x, refl)
get-length (x ∷ xs) (suc i) h = get-length xs i (omega arith)

length-get : (es : List EnumEntry) (i : ℕ) {x : EnumEntry} → get_elem? es i ≡ some x → i < length es
length-get [] i h = cc
length-get (x ∷ xs) zero h = omega arith
length-get (x ∷ xs) (suc i) h = omega (arith, length-get xs i h)

-- The rounds of the search.
module _ (es : List EnumEntry) (name : Text) (k first len : ℕ) where
  bound-empty : len ≡ 0 → lower_bound (suc k) es name first len ≡ some first
  unfolding lower_bound nat_eq
  bound-empty e = rw e refl

  module _ {x : EnumEntry} (some_left : len ≢ 0)
      (at : get_elem? es (first + len / 2) ≡ some x) where
    bound-right :
        less x.entry name ≡ true
        → lower_bound (suc k) es name first len
          ≡ lower_bound k es name (suc (first + len / 2)) (len - len / 2 - 1)
    unfolding lower_bound nat_eq
    bound-right h = ground (arith, at, h)

    bound-left :
        less x.entry name ≡ false
        → lower_bound (suc k) es name first len ≡ lower_bound k es name first (len / 2)
    unfolding lower_bound nat_eq
    bound-left h = ground (arith, at, h)

not-true : (b : Bool) → not b ≡ true → b ≡ false
not-true true h = cc
not-true false h = refl

not-false : (b : Bool) → b ≡ false → not b ≡ true
not-false true h = cc
not-false false h = refl

module _ (es : List EnumEntry) (name : Text) where
  -- The index splits the entries at the name.
  record Splits (i : ℕ) : Type 0 where
    inside : i ≤ length es
    below : (j : ℕ) (x : EnumEntry) → j < i → get_elem? es j ≡ some x → less x.entry name ≡ true
    above : (j : ℕ) (x : EnumEntry) → i ≤ j → get_elem? es j ≡ some x → less x.entry name ≡ false

  abbrev Below : ℕ → Type 0
  Below i = (j : ℕ) (x : EnumEntry) → j < i → get_elem? es j ≡ some x → less x.entry name ≡ true

  abbrev Above : ℕ → Type 0
  Above i = (j : ℕ) (x : EnumEntry) → i ≤ j → get_elem? es j ≡ some x → less x.entry name ≡ false

  module _ (sorted : IsSorted es) (mid : ℕ) {x : EnumEntry} (at : get_elem? es mid ≡ some x) where
    go_right : less x.entry name ≡ true → Below (suc mid)
    go_right h j y below q = elim (Bool-cases (less y.entry name)) [
      | inl p ↦ p
      | inr p ↦
          let ordered = IsSorted-get es j mid sorted (omega arith) q at in
          let back = not_less_trans name y.entry x.entry p ordered in cc
    ]

    go_left : less x.entry name ≡ false → Above mid
    go_left h j y above q =
        not_less_trans name x.entry y.entry h (IsSorted-get es mid j sorted above at q)

  module _ (sorted : IsSorted es) where
    search :
        (k first len : ℕ)
        → len < k
        → first + len ≤ length es
        → Below first
        → Above (first + len)
        → (i : ℕ) × (lower_bound k es name first len ≡ some i) × Splits i
    search zero first len f l b a = absurd (omega arith)
    search (suc k) first len f l b a = elim (ℕ_discrete len 0) [
      | yes empty ↦ (
        first,
        bound-empty es name k first len empty,
        record { inside = omega arith; below = b; above = λ j x h. a j x (omega arith) },
      )
      | no left ↦
          let (x, at) = get-length es (first + len / 2) (omega arith) in
          elim (Bool-cases (less x.entry name)) [
            | inl right ↦ rw (bound-right es name k first len left at right) (
                search k (suc (first + len / 2)) (len - len / 2 - 1) (omega arith) (omega arith)
                  (go_right sorted (first + len / 2) at right) (λ j y h. a j y (omega arith)))
            | inr leftward ↦ rw (bound-left es name k first len left at leftward) (
                search k first (len / 2) (omega arith) (omega arith) b
                  (go_left sorted (first + len / 2) at leftward))
          ]
    ]

    Splits-whole :
        (i : ℕ) × (lower_bound (suc (length es)) es name 0 (length es) ≡ some i) × Splits i
    Splits-whole =
        search (suc (length es)) 0 (length es) (omega arith) (omega arith)
          (λ j x h. absurd (omega arith)) (λ j x h at. absurd (omega (arith, length-get es j at)))

    reached :
        (i : ℕ)
        → Splits i
        → Listed name es
        → (j : ℕ) × (y : EnumEntry) × (get_elem? es j ≡ some y) × (y.entry ≡ name) × (i ≤ j)
    reached i s listed =
        let (j, y, at, e) = Listed-get name es listed in (j, y, at, e, after j y at e)
      where
        after : (j : ℕ) (y : EnumEntry) → get_elem? es j ≡ some y → y.entry ≡ name → i ≤ j
        after j y at e = elim (dec_lt j i) [
          | yes before ↦
              let wrong = s.below j y before at in
              let right = less_irrefl name in absurd (false≢true (sym right ∙ (rw e at wrong)))
          | no behind ↦ omega arith
        ]

    answer_lem :
        (i : ℕ)
        → Splits i
        → (b : Bool) × (answer es name (some i) ≡ some b) × ((b ≡ true) ↔ Listed name es)
    answer_lem i s = elim (Option-cases (get_elem? es i)) [
      | inl past ↦ (
        false,
        rw (past, answer) refl,
        (
          λ h. cc,
          λ listed.
              let (j, y, at, e, after) = reached i s listed in
              let (x, there) = get-length es i (omega (arith, length-get es j at)) in cc,
        ),
      )
      | inr (x, at) ↦ (
        not (less name x.entry),
        rw (at, answer) refl,
        (
          λ h.
              get-Listed name es i at
                (less-antisym x.entry name (s.above i x (omega arith) at) (not-true _ h)),
          λ listed.
              let (j, y, there, e, after) = reached i s listed in
              let ordered = IsSorted-get es i j sorted after at there in
              not-false _ (rw e at ordered),
        ),
      )
    ]

    is-answer :
        (i : ℕ)
        → lower_bound (suc (length es)) es name 0 (length es) ≡ some i
        → is es name ≡ answer es name (some i)
    unfolding is
    is-answer i e = ap (answer es name) e

    is-sorted : (b : Bool) × (is es name ≡ some b) × ((b ≡ true) ↔ Listed name es)
    is-sorted =
        let (i, e, s) = Splits-whole in
        let (b, found, listed) = answer_lem i s in (b, is-answer i e ∙ found, listed)

-- Looking a name up among the entries that the constructor has sorted gives an answer, with no read
-- outside of them, and the answer is true exactly if one of the given entries has the name.
pub is-enum_def :
    (es : List EnumEntry) (name : Text)
    → (b : Bool) × (is (enum_def es) name ≡ some b) × ((b ≡ true) ↔ Listed name es)
is-enum_def es name =
    let (b, found, listed) = is-sorted (enum_def es) name (enum_def-IsSorted es) in
    let same = Listed-enum_def name es in
    (b, found, (λ h. same.0 (listed.0 h), λ h. listed.1 (same.1 h)))
