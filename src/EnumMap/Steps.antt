-- ===== src/EnumMap/Steps.antt =====
-- Stepping through an enumeration: `for(e=begin(); e!=end(); ++e)`, and `--` after `++`.
use mathlib.Core.Option
use mathlib.Core.Option.{some-injective}
use mathlib.Core.Path.{subst}
use gd2fuse.Base.{
  ℕ, zero, suc, ◌+◌, ◌≡◌, ◌≢◌, refl, sym, ap, ◌∙◌, ◌⊎◌, inl, inr, Option, none, some, List, [], ◌∷◌,
  ◌++◌, ◌==◌, nat_eq, if◌then◌else◌, arith, length, length-append, get_elem?, All, map,
}
use mathlib.Core.List.{append_assoc}
use gd2fuse.EnumMap.{EnumMap, EnumMapItem, npos, enum_loop, begin, incr, decr}
use gd2fuse.EnumMap.Table.{DistinctValues}

-- No enumerator is the value that stands for "undefined".
abbrev pub NoNpos : EnumMap → Type 0
NoNpos m = All (λ x. x.value ≢ npos) m

-- The values that the loop visits, with an undefined access or too little fuel as `none`.
unfoldable pub visit : ℕ → EnumMap → ℕ → Option (List ℕ)
visit zero m e = none
visit (suc k) m e =
    let step = λ (e' : ℕ). Option.map (◌∷◌ e) (visit k m e') in
    if e == npos then some [] else elim (incr m e) [ none ↦ none | some e' ↦ step e' ]

module _ (x : EnumMapItem) (suf : EnumMap) where
  loop-split :
      (pre : EnumMap) (i : ℕ)
      → DistinctValues (pre ++ x ∷ suf)
      → enum_loop i (pre ++ x ∷ suf) x.value ≡ some (length pre + i)
  unfolding enum_loop nat_eq
  loop-split [] i d = ground arith
  loop-split (y ∷ pre) i d = ground (arith, loop-split pre (suc i) d.1, apart pre d.0)
    where
      apart : (p : EnumMap) → All (λ z. z.value ≢ y.value) (p ++ x ∷ suf) → x.value ≢ y.value
      apart [] a = a.0
      apart (_ ∷ p) a = apart p a.1

  NoNpos-split : (pre : EnumMap) → NoNpos (pre ++ x ∷ suf) → x.value ≢ npos
  NoNpos-split [] h = h.0
  NoNpos-split (y ∷ pre) h = NoNpos-split pre h.1

  at-split : (pre : EnumMap) → get_elem? (pre ++ x ∷ suf) (length pre) ≡ some x
  at-split [] = refl
  at-split (y ∷ pre) = at-split pre

abbrev next_value : EnumMap → ℕ
next_value [] = npos
next_value (y ∷ suf) = y.value

after-split :
    (pre : EnumMap) (x : EnumMapItem) (suf : EnumMap)
    → get_elem? (pre ++ x ∷ suf) (suc (length pre)) ≡ get_elem? suf 0
after-split [] x suf = refl
after-split (y ∷ pre) x suf = after-split pre x suf

incr-split :
    (pre : EnumMap) (x : EnumMapItem) (suf : EnumMap)
    → DistinctValues (pre ++ x ∷ suf)
    → NoNpos (pre ++ x ∷ suf)
    → incr (pre ++ x ∷ suf) x.value ≡ some (next_value suf)
unfolding incr nat_eq
incr-split pre x [] d h =
    ground (arith, loop-split x [] pre 0 d, NoNpos-split x [] pre h, length-append pre (x ∷ []))
incr-split pre x (y ∷ suf) d h = ground (
  arith,
  loop-split x (y ∷ suf) pre 0 d,
  NoNpos-split x (y ∷ suf) pre h,
  length-append pre (x ∷ y ∷ suf),
  after-split pre x (y ∷ suf),
)

regroup :
    (pre : EnumMap) (x : EnumMapItem) (suf : EnumMap) → (pre ++ x ∷ []) ++ suf ≡ pre ++ x ∷ suf
regroup pre x suf = append_assoc pre (x ∷ []) suf

second-split :
    (pre : EnumMap) (x y : EnumMapItem) (suf : EnumMap)
    → DistinctValues (pre ++ x ∷ y ∷ suf)
    → enum_loop 0 (pre ++ x ∷ y ∷ suf) y.value ≡ some (suc (length pre))
second-split pre x y suf =
    subst (λ (m : EnumMap). DistinctValues m → enum_loop 0 m y.value ≡ some (suc (length pre)))
      (regroup pre x (y ∷ suf))
      (λ d.
        loop-split y suf (pre ++ x ∷ []) 0 d ∙ ap some (omega (arith, length-append pre (x ∷ []))))

second-NoNpos :
    (pre : EnumMap) (x y : EnumMapItem) (suf : EnumMap)
    → NoNpos (pre ++ x ∷ y ∷ suf)
    → y.value ≢ npos
second-NoNpos [] x y suf h = h.1.0
second-NoNpos (_ ∷ pre) x y suf h = second-NoNpos pre x y suf h.1

decr-split :
    (pre : EnumMap) (x : EnumMapItem) (suf : EnumMap)
    → DistinctValues (pre ++ x ∷ suf)
    → NoNpos (pre ++ x ∷ suf)
    → decr (pre ++ x ∷ suf) (next_value suf) ≡ some x.value
unfolding decr nat_eq
decr-split pre x [] d h = ground (arith, at-split x [] pre, length-append pre (x ∷ []))
decr-split pre x (y ∷ suf) d h =
    ground
      (arith, at-split x (y ∷ suf) pre, second-split pre x y suf d, second-NoNpos pre x y suf h)

visit-split :
    (pre suf : EnumMap)
    → DistinctValues (pre ++ suf)
    → NoNpos (pre ++ suf)
    → visit (suc (length suf)) (pre ++ suf) (next_value suf) ≡ some (map (λ x. x.value) suf)
unfolding visit nat_eq
visit-split pre [] d h = refl
visit-split pre (x ∷ suf) d h =
    let rest =
      subst
        (λ (m : EnumMap).
          DistinctValues m
          → NoNpos m
          → visit (suc (length suf)) m (next_value suf) ≡ some (map (λ y. y.value) suf))
        (regroup pre x suf) (visit-split (pre ++ x ∷ []) suf) d h in
    ground (arith, NoNpos-split x suf pre h, incr-split pre x suf d h, rest)

-- The loop from begin() by `++` to end() over a table with different values, none of them the
-- undefined one, ends after as many rounds as the table has entries, and visits each value once, in
-- the order of the table.
pub visit-begin :
    (m : EnumMap) {e : ℕ}
    → DistinctValues m
    → NoNpos m
    → begin m ≡ some e
    → visit (suc (length m)) m e ≡ some (map (λ x. x.value) m)
visit-begin [] d h b = cc
visit-begin (x ∷ m) {e} d h b =
    subst (λ (v : ℕ). visit (suc (length (x ∷ m))) (x ∷ m) v ≡ some (map (λ y. y.value) (x ∷ m)))
      (some-injective _ _ b) (visit-split [] (x ∷ m) d h)

-- The table cut at an index.
split-at :
    (m : EnumMap) (i : ℕ) {x : EnumMapItem}
    → get_elem? m i ≡ some x
    → (pre suf : EnumMap) × (m ≡ pre ++ x ∷ suf)
split-at [] i at = cc
split-at (y ∷ m) zero at = ([], m, ap (λ (z : EnumMapItem). z ∷ m) (some-injective _ _ at))
split-at (y ∷ m) (suc i) at = let (pre, suf, e) = split-at m i at in (y ∷ pre, suf, ap (◌∷◌ y) e)

abbrev Undone : EnumMap → ℕ → Type 0
Undone m e = (e' : ℕ) × (incr m e ≡ some e') × (decr m e' ≡ some e)

Undone-npos : (m : EnumMap) → DistinctValues m → NoNpos m → Undone m npos
unfolding incr decr enum_loop nat_eq
Undone-npos [] d h = (npos, refl, refl)
Undone-npos (x ∷ m) d h = (x.value, ground arith, ground (arith, h.0))

-- `--` after `++` is back at the value, for each enumerator of such a table and for the undefined
-- value, so that both go round: behind the last enumerator is the undefined value, and behind that
-- the first.
pub decr-incr :
    (m : EnumMap) (e : ℕ)
    → DistinctValues m
    → NoNpos m
    → (e ≡ npos) ⊎ ((i : ℕ) × (x : EnumMapItem) × (get_elem? m i ≡ some x) × (x.value ≡ e))
    → (e' : ℕ) × (incr m e ≡ some e') × (decr m e' ≡ some e)
decr-incr m e d h (inr (i, x, at, same)) =
    let (pre, suf, cut) = split-at m i at in
    subst (Undone m) same (
      subst (λ (t : EnumMap). DistinctValues t → NoNpos t → Undone t x.value) (sym cut)
        (λ d' h'. (next_value suf, incr-split pre x suf d' h', decr-split pre x suf d' h')) d h)
decr-incr m e d h (inl same) = subst (Undone m) (sym same) (Undone-npos m d h)
