-- ===== src/EnumMap.antt =====
-- The class template Enum of src/utils/Enum.h: an enumeration with a table of its values and their
-- names. Enumerators are numbers, and an index that is not found (-1) is `none`. The results of the
-- operations are options: `none` is a read outside of the table.
mod Table
mod Steps
mod Narrow
mod Reading
mod Tests
use mathlib.Core.Option
use gd2fuse.Base.{
  ℕ, zero, suc, ◌+◌, ◌-◌, ◌≡◌, Bool, true, false, ◌||◌, Option, none, some, List, [], ◌∷◌, ◌++◌,
  ◌==◌, nat_eq, if◌then◌else◌, length, get_elem?, Text, tolower, is_space, map,
}

pub record EnumMapItem : Type 0 where
  pub value : ℕ
  pub str : Text

-- getMap(): the table
abbrev pub EnumMap : Type 0
EnumMap = List EnumMapItem

-- INT_MAX
abbrev pub npos : ℕ
npos = 2147483647

-- the loop of EqualIgnoreCase, over texts of one length
chars_equal : Text → Text → Bool
chars_equal (l ∷ left) (r ∷ right) =
    let rest = chars_equal left right in if tolower l == tolower r then rest else false
chars_equal _ _ = true

unfoldable pub equal_ignore_case : Text → Text → Bool
unfolding chars_equal
equal_ignore_case left right = if length left == length right then chars_equal left right else false

-- EqualIgnoreCase for two characters
abbrev pub equal_char : ℕ → ℕ → Bool
equal_char left right = tolower left == tolower right

enum_loop : ℕ → EnumMap → ℕ → Option ℕ
enum_loop i [] e = none
enum_loop i (x ∷ m) e = let rest = enum_loop (suc i) m e in if x.value == e then some i else rest

unfoldable pub index_enum : EnumMap → ℕ → Option ℕ
unfolding enum_loop
index_enum m e = enum_loop 0 m e

string_loop : ℕ → EnumMap → Text → Option ℕ
string_loop i [] s = none
string_loop i (x ∷ m) s =
    let rest = string_loop (suc i) m s in if equal_ignore_case x.str s then some i else rest

-- with a pointer that may be null
unfoldable pub index_string : EnumMap → Option Text → Option ℕ
unfolding string_loop
index_string m none = none
index_string m (some s) = string_loop 0 m s

abbrev pub value_at : EnumMap → ℕ → Option ℕ
value_at m i = Option.map (λ x. x.value) (get_elem? m i)

abbrev pub str_at : EnumMap → ℕ → Option Text
str_at m i = Option.map (λ x. x.str) (get_elem? m i)

-- `ifind==-1 ? npos : getMapItemIndex(ifind)._enum`
abbrev pub or_npos : EnumMap → Option ℕ → Option ℕ
or_npos m none = some npos
or_npos m (some i) = value_at m i

unfoldable pub to_enum : EnumMap → ℕ → Option ℕ
unfolding index_enum
to_enum m e = or_npos m (index_enum m e)

unfoldable pub string_to_enum : EnumMap → Option Text → Option ℕ
unfolding index_string
string_to_enum m s = or_npos m (index_string m s)

-- toString: the inner option is the pointer that may be null
unfoldable pub to_string : EnumMap → ℕ → Option (Option Text)
unfolding index_enum
to_string m e = elim (index_enum m e) [ none ↦ some none | some i ↦ Option.map some (str_at m i) ]

unfoldable pub to_std_string : EnumMap → ℕ → Option Text
unfolding index_enum
to_std_string m e = elim (index_enum m e) [ none ↦ some [] | some i ↦ str_at m i ]

joined : Text → EnumMap → Text → Text
joined delimiter [] ret = ret
joined delimiter (x ∷ m) ret = joined delimiter m ((ret ++ delimiter) ++ x.str)

unfoldable pub printable_str_list : EnumMap → Text → Text
unfolding joined
printable_str_list [] delimiter = []
printable_str_list (x ∷ m) delimiter = joined delimiter m x.str

abbrev pub begin : EnumMap → Option ℕ
begin m = value_at m 0

-- `++e`. The table has an element where its size is decreased.
unfoldable pub incr : EnumMap → ℕ → Option ℕ
unfolding index_enum
incr m e =
    if e == npos then (if length m == 0 then some e else value_at m 0) else elim (index_enum m e) [
      | none ↦ some npos
      | some i ↦ if i == length m - 1 then some npos else value_at m (suc i)
    ]

-- `--e`
unfoldable pub decr : EnumMap → ℕ → Option ℕ
unfolding index_enum
decr m e =
    if e == npos
    then (if length m == 0 then some e else value_at m (length m - 1))
    else elim (index_enum m e) [
      | none ↦ some npos
      | some zero ↦ some npos
      | some (suc i) ↦ value_at m i
    ]

pub record Stream : Type 0 where
  pub rest : Text
  pub eof : Bool
  pub fail : Bool

abbrev pub good : Text → Stream
good s = record { rest = s; eof = false; fail = false }

-- A round of the loop over the variants: one fits (`bingo`), the outer loop ends, or it goes on with
-- those that are left.
pub data Scan : Type 0 where
  bingo : Text → Scan
  stop : Scan
  more : List Text → Scan

abbrev pub push_back : Text → Scan → Scan
push_back v (more tmp) = more (v ∷ tmp)
push_back v s = s

-- `str[i]` of a C string, which ends with 0
abbrev pub char_at : Text → ℕ → ℕ
char_at [] i = 0
char_at (c ∷ s) zero = c
char_at (c ∷ s) (suc i) = char_at s i

-- the loop over the variants, at a character or at the end of the stream
unfoldable pub scan : Option ℕ → ℕ → List Text → Scan
scan c readed [] = more []
scan none readed (v ∷ vs) = if char_at v readed == 0 then bingo v else stop
scan (some c) readed (v ∷ vs) =
    let rest = scan (some c) readed vs in
    if char_at v readed == 0
    then (if is_space c then bingo v else rest)
    else if equal_char (char_at v readed) c
    then push_back v rest
    else rest

at_end : Scan → Option Text × Stream
at_end (bingo v) = (some v, record { rest = []; eof = true; fail = false })
at_end _ = (none, record { rest = []; eof = true; fail = false })

-- the loop over the characters: pBingo, and the stream
unfoldable pub read_loop : List Text → ℕ → Text → Option Text × Stream
unfolding scan at_end
read_loop [] readed s = (none, good s)
read_loop (v ∷ vs) readed [] = at_end (scan none readed (v ∷ vs))
read_loop (v ∷ vs) readed (c ∷ s) = elim (scan (some c) readed (v ∷ vs)) [
  | bingo b ↦ (some b, good (c ∷ s))
  | stop ↦ (none, good s)
  | more tmp ↦ read_loop tmp (suc readed) s
]

abbrev pub conclude : EnumMap → Option Text × Stream → Option (ℕ × Stream)
conclude m (none, s) = some (npos, record s { fail = true })
conclude m (some b, s) = Option.map (λ e. (e, s)) (string_to_enum m (some b))

-- `stream >> e`
unfoldable pub read : EnumMap → ℕ → Stream → Option (ℕ × Stream)
unfolding read_loop
read [] e s = some (e, s)
read (x ∷ m) e s =
    if s.eof || s.fail
    then conclude (x ∷ m) (none, s)
    else conclude (x ∷ m) (read_loop (map (λ y. y.str) (x ∷ m)) 0 s.rest)
