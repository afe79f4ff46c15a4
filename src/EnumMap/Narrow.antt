-- ===== src/EnumMap/Narrow.antt =====
-- The loop of `stream >> e` narrows the names down, a character at a time.
use gd2fuse.Base.{
  ℕ, zero, suc, ◌≤◌, ◌≡◌, ◌≢◌, refl, inl, inr, Bool, true, false, Option, none, some, List, [], ◌∷◌,
  ◌==◌, nat_eq, if◌then◌else◌, arith, length, All, Text, tolower, to_lower, is_space, same, drop,
  Bool-cases,
}
use gd2fuse.EnumMap.{Scan, bingo, more, char_at, scan, read_loop}

-- The characters of a name: no terminator and no white space.
abbrev pub InName : ℕ → Type 0
InName c = (c ≢ 0) × (is_space c ≡ false)

abbrev pub IsName : Text → Type 0
IsName = All InName

-- Whether the rest of a name, from an index on, is the word without regard to case.
abbrev pub tail_is : ℕ → Text → Text → Bool
tail_is k w v = same (to_lower (drop k v)) (to_lower w)

unfoldable pub first : (Text → Bool) → List Text → Option Text
first f [] = none
first f (v ∷ vs) = if f v then some v else first f vs

-- A name that is read up to an index ends there, or goes on.
pub data At (k : ℕ) (v : Text) : Type 0 where
  ends : char_at v k ≡ 0 → drop k v ≡ [] → At k v
  goes_on :
      (c : ℕ)
      → char_at v k ≡ c
      → InName c
      → drop k v ≡ c ∷ drop (suc k) v
      → suc k ≤ length v
      → At k v

pub At-index : (k : ℕ) (v : Text) → IsName v → k ≤ length v → At k v
At-index zero [] n h = ends refl refl
At-index zero (c ∷ v) n h = goes_on c refl n.0 refl (omega arith)
At-index (suc k) [] n h = absurd (omega arith)
At-index (suc k) (c ∷ v) n h = elim (At-index k v n.1 (omega arith)) [
  | ends e d ↦ ends e d
  | goes_on b e i d l ↦ goes_on b e i d (omega arith)
]

abbrev pub Ready : ℕ → Text → Type 0
Ready k v = IsName v × (k ≤ length v)

space_apart : (a c : ℕ) → is_space a ≡ false → is_space c ≡ true → (tolower a == tolower c) ≡ false
unfolding is_space tolower nat_eq
space_apart a c h g = ground arith

abbrev pub scanned : Option Text → Scan
scanned none = more []
scanned (some v) = bingo v

-- At white space the loop stops with the name that ends there.
pub scan-space :
    (c k : ℕ) (vs : List Text)
    → is_space c ≡ true
    → All (Ready k) vs
    → scan (some c) k vs ≡ scanned (first (tail_is k []) vs)
unfolding scan first same nat_eq
scan-space c k [] h r = refl
scan-space c k (v ∷ vs) h r = elim (At-index k v r.0.0 r.0.1) [
  | ends e d ↦ rw (e, d, h) refl
  | goes_on a e i d l ↦
      rw (e, d) (ground (arith, i.0, space_apart a c i.1 h, scan-space c k vs h r.1))
]

-- At another character those names stay that go on with it.
pub kept : ℕ → ℕ → List Text → List Text
kept c k [] = []
kept c k (v ∷ vs) =
    let rest = kept c k vs in
    if char_at v k == 0 then rest else if tolower (char_at v k) == tolower c then v ∷ rest else rest

pub scan-kept :
    (c k : ℕ) (vs : List Text) → is_space c ≡ false → scan (some c) k vs ≡ more (kept c k vs)
unfolding scan kept nat_eq
scan-kept c k [] h = refl
scan-kept c k (v ∷ vs) h = ground (arith, h, scan-kept c k vs h)

pub nonzero : (a : ℕ) → a ≢ 0 → (a == 0) ≡ false
unfolding nat_eq
nonzero a h = ground arith

pub kept-Ready : (c k : ℕ) (vs : List Text) → All (Ready k) vs → All (Ready (suc k)) (kept c k vs)
unfolding kept nat_eq
kept-Ready c k [] r = tt
kept-Ready c k (v ∷ vs) r = elim (At-index k v r.0.0 r.0.1) [
  | ends e d ↦ rw e (kept-Ready c k vs r.1)
  | goes_on a e i d l ↦ elim (Bool-cases (tolower a == tolower c)) [
    | inl fits ↦ rw (e, nonzero a i.0, fits) ((r.0.0, l), kept-Ready c k vs r.1)
    | inr differs ↦ rw (e, nonzero a i.0, differs) (kept-Ready c k vs r.1)
  ]
]

pub first-kept :
    (c k : ℕ) (w : Text) (vs : List Text)
    → All (Ready k) vs
    → first (tail_is k (c ∷ w)) vs ≡ first (tail_is (suc k) w) (kept c k vs)
unfolding kept first same nat_eq
first-kept c k w [] r = refl
first-kept c k w (v ∷ vs) r = elim (At-index k v r.0.0 r.0.1) [
  | ends e d ↦ rw (e, d) (first-kept c k w vs r.1)
  | goes_on a e i d l ↦ rw (e, d) (ground (arith, i.0, first-kept c k w vs r.1))
]

pub kept-goes_on :
    (c k : ℕ) (v : Text) (vs : List Text)
    → char_at v k ≡ c
    → c ≢ 0
    → kept c k (v ∷ vs) ≡ v ∷ kept c k vs
unfolding kept nat_eq
kept-goes_on c k v vs e h = ground (arith, e)

pub loop-end :
    (k : ℕ) (v : Text) (vs : List Text) → char_at v k ≢ 0 → (read_loop (v ∷ vs) k []).0 ≡ none
unfolding read_loop
loop-end k v vs h = rw (nonzero (char_at v k) h) refl
