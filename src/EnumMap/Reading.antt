-- ===== src/EnumMap/Reading.antt =====
-- `stream >> e` against toEnum.
use mathlib.Core.Option
use mathlib.Core.Option.{some-injective}
use mathlib.Core.Path.{subst}
use gd2fuse.Base.{
  ℕ, suc, ◌≡◌, ◌≢◌, refl, ◌∙◌, ◌⊎◌, inl, inr, Bool, true, false, Option, none, some, List, [], ◌∷◌,
  ◌++◌, nat_eq, arith, All, map, Text, to_lower, is_space, same, same-true, drop, Bool-cases,
}
use gd2fuse.EnumMap.{
  EnumMap, EnumMapItem, npos, string_loop, index_string, string_to_enum, Stream, good, Scan, bingo,
  stop, more, scan, read_loop, conclude, read,
}
use gd2fuse.EnumMap.Table.{equal_ignore_case-same}
use gd2fuse.EnumMap.Narrow.{
  IsName, InName, tail_is, first, ends, goes_on, At-index, Ready, scanned, scan-space, kept,
  scan-kept, kept-Ready, first-kept, kept-goes_on, loop-end,
}

-- What the loop gives, if the word in front of `rest` is the name that is found.
abbrev Finds : Option Text → Text → Option Text × Stream → Type 0
Finds none rest r = r.0 ≡ none
Finds (some v) rest r = r ≡ (some v, good rest)

abbrev loop_of : Scan → ℕ → ℕ → Text → Option Text × Stream
loop_of (bingo b) c k s = (some b, good (c ∷ s))
loop_of stop c k s = (none, good s)
loop_of (more tmp) c k s = read_loop tmp (suc k) s

loop-cons :
    (v : Text) (vs : List Text) (k c : ℕ) (s : Text)
    → read_loop (v ∷ vs) k (c ∷ s) ≡ loop_of (scan (some c) k (v ∷ vs)) c k s
unfolding read_loop
loop-cons v vs k c s = ground arith

loop-nil : (k : ℕ) (s : Text) → read_loop [] k s ≡ (none, good s)
unfolding read_loop
loop-nil k [] = refl
loop-nil k (c ∷ s) = refl

found-space :
    (o : Option Text) (c k : ℕ) (rest : Text) → Finds o (c ∷ rest) (loop_of (scanned o) c k rest)
found-space none c k rest = rw loop-nil refl
found-space (some v) c k rest = refl

first-nil : (f : Text → Bool) → first f [] ≡ none
unfolding first
first-nil f = refl

module _ (c : ℕ) (rest : Text) (space : is_space c ≡ true) where
  word-loop :
      (w : Text) (k : ℕ) (vs : List Text)
      → All (λ d. is_space d ≡ false) w
      → All (Ready k) vs
      → Finds (first (tail_is k w) vs) (c ∷ rest) (read_loop vs k (w ++ c ∷ rest))
  word-loop w k [] n r = rw first-nil (rw loop-nil refl)
  word-loop [] k (v ∷ vs) n r =
      rw (loop-cons v vs k c rest) (
        rw (scan-space c k (v ∷ vs) space r) (found-space (first (tail_is k []) (v ∷ vs)) c k rest))
  word-loop (d ∷ w) k (v ∷ vs) n r =
      let ih = word-loop w (suc k) (kept d k (v ∷ vs)) n.1 (kept-Ready d k (v ∷ vs) r) in
      rw (loop-cons v vs k d (w ++ c ∷ rest))
        (rw (scan-kept d k (v ∷ vs) n.0) (rw (first-kept d k w (v ∷ vs) r) ih))

abbrev names : EnumMap → List Text
names m = map (λ x. x.str) m

-- The first name that is the word, against the index that is found for it.
Searched : Text → Option Text → Option ℕ → Type 0
Searched w none o = o ≡ none
Searched w (some v) o = (to_lower v ≡ to_lower w) × (o ≢ none)

first-string :
    (w : Text) (i : ℕ) (m : EnumMap)
    → Searched w (first (tail_is 0 w) (names m)) (string_loop i m w)
unfolding first string_loop Searched
first-string w i [] = refl
first-string w i (x ∷ m) =
    rw (equal_ignore_case-same x.str w) (elim (Bool-cases (same (to_lower x.str) (to_lower w))) [
      | inl hit ↦ rw hit (same-true _ _ hit, λ h. cc)
      | inr miss ↦ rw miss (first-string w (suc i) m)
    ])

string_loop-lower :
    (v w : Text) (i : ℕ) (m : EnumMap)
    → to_lower v ≡ to_lower w
    → string_loop i m v ≡ string_loop i m w
unfolding string_loop
string_loop-lower v w i [] e = refl
string_loop-lower v w i (x ∷ m) e =
    rw
      (
        equal_ignore_case-same x.str v,
        equal_ignore_case-same x.str w,
        e,
        string_loop-lower v w (suc i) m e,
      )
      refl

abbrev pub WordRead : EnumMap → Text → Text → Option (ℕ × Stream) → Type 0
WordRead m w rest r =
    ((index_string m (some w) ≢ none)
      × (r ≡ Option.map (λ e. (e, good rest)) (string_to_enum m (some w))))
    ⊎ ((index_string m (some w) ≡ none) × (s : Stream) × (r ≡ some (npos, s)) × (s.fail ≡ true))

names-Ready : (m : EnumMap) → All (λ x. IsName x.str) m → All (Ready 0) (names m)
names-Ready [] n = tt
names-Ready (x ∷ m) n = ((n.0, omega arith), names-Ready m n.1)

conclude-word :
    (m : EnumMap) (w rest : Text) (o : Option Text) (r : Option Text × Stream)
    → Searched w o (string_loop 0 m w)
    → Finds o rest r
    → WordRead m w rest (conclude m r)
unfolding Searched index_string string_to_enum
conclude-word m w rest none (none, t) s f = inr (s, record t { fail = true }, refl, refl)
conclude-word m w rest none (some b, t) s f = cc
conclude-word m w rest (some v) r s f = rw f (inl (s.1, rw (string_loop-lower v w 0 m s.0) refl))

read-open :
    (m : EnumMap) (e : ℕ) (s : Text)
    → m ≢ []
    → read m e (good s) ≡ conclude m (read_loop (names m) 0 s)
unfolding read
read-open [] e s h = absurd (h refl)
read-open (x ∷ m) e s h = refl

-- Reading a word that white space follows, from a good stream: if the table has the word as a name,
-- in whatever case, the value is toEnum's of the word, and the stream stands at the white space; if
-- not, the value is the undefined one and the stream has failed. The names of the table have no
-- white space, and the table has at least one.
pub read-word :
    (m : EnumMap) (e : ℕ) (w : Text) (c : ℕ) (rest : Text)
    → m ≢ []
    → All (λ x. IsName x.str) m
    → All (λ d. is_space d ≡ false) w
    → is_space c ≡ true
    → WordRead m w (c ∷ rest) (read m e (good (w ++ c ∷ rest)))
read-word m e w c rest h n word space = rw (read-open m e (w ++ c ∷ rest) h) (
    conclude-word m w (c ∷ rest) _ _ (first-string w 0 m)
      (word-loop c rest space w 0 (names m) word (names-Ready m n)))

-- A name that another name begins with, at the end of the stream.
prefix-loop :
    (w : Text) (d : ℕ) (t : Text) (k : ℕ) (v : Text) (vs : List Text)
    → drop k v ≡ w ++ d ∷ t
    → Ready k v
    → (read_loop (v ∷ vs) k w).0 ≡ none
prefix-loop [] d t k v vs p r = elim (At-index k v r.0 r.1) [
  | ends e q ↦ cc
  | goes_on a e i q l ↦ loop-end k v vs (rw e i.0)
]
prefix-loop (c ∷ w) d t k v vs p r = elim (At-index k v r.0 r.1) [
  | ends e q ↦ cc
  | goes_on a e i q l ↦
      let same_char : a ≡ c = cc in
      let deeper : drop (suc k) v ≡ w ++ d ∷ t = cc in
      let ih = prefix-loop w d t (suc k) v (kept c k vs) deeper (r.0, l) in
      let named : InName c = subst InName same_char i in
      rw (loop-cons v vs k c w) (
        rw (scan-kept c k (v ∷ vs) named.1) (rw (kept-goes_on c k v vs (e ∙ same_char) named.0) ih))
]

-- Reading a name to the end of the stream fails, if the first name of the table is a longer one that
-- begins with it.
pub read-prefix :
    (x : EnumMapItem) (m : EnumMap) (e : ℕ) (w : Text) (d : ℕ) (t : Text)
    → IsName x.str
    → x.str ≡ w ++ d ∷ t
    → (s : Stream) × (read (x ∷ m) e (good w) ≡ some (npos, s)) × (s.fail ≡ true)
read-prefix x m e w d t n p =
    rw (read-open (x ∷ m) e w (λ h. cc))
      (failed (x ∷ m) _ (prefix-loop w d t 0 x.str (names m) p (n, omega arith)))
  where
    failed :
        (u : EnumMap) (r : Option Text × Stream)
        → r.0 ≡ none
        → (s : Stream) × (conclude u r ≡ some (npos, s)) × (s.fail ≡ true)
    failed u (none, s) h = (record s { fail = true }, refl, refl)
    failed u (some b, s) h = cc
