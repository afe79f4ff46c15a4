-- ===== src/PropertyFile/FileStream.antt =====
-- std::fstream of a whole file, opened for reading and writing, with exceptions for failbit, as far as
-- src/control/props/AbstractFileStaticInitPropertiesList.cpp uses it, and the pattern of its lines.
-- Output after the end has been reached writes nothing; the standard leaves open whether it fails.
use gd2fuse.Base.{
  ℕ, zero, suc, Bool, true, false, ◌&&◌, ◌||◌, Option, none, some, [], ◌∷◌, ◌++◌, ◌==◌, nat_eq,
  if◌then◌else◌, Text, leb, is_space, take, drop, length,
}
use gd2fuse.Outcome.{Error, Outcome, ok, threw, Cmd, ◌>>=◌}

-- The bytes before the position and behind it, and eofbit.
pub record Stream : Type 0 where
  pub before : Text
  pub rest : Text
  pub eof : Bool

abbrev pub text_of : Stream → Text
text_of s = s.before ++ s.rest

abbrev pub opened : Text → Stream
opened text = record { before = []; rest = text; eof = false }

-- How getline's line ends.
pub data LineEnd : Type 0 where
  at_eof at_newline too_long : LineEnd

-- A line of at most so many bytes, and what is behind it.
unfoldable pub split_line : ℕ → Text → LineEnd × (Text × Text)
split_line room [] = (at_eof, ([], []))
split_line zero (c ∷ s) = if c == b'\n' then (at_newline, ([], s)) else (too_long, ([], c ∷ s))
split_line (suc room) (c ∷ s) =
    let r = split_line room s in
    if c == b'\n' then (at_newline, ([], s)) else (r.0, (c ∷ r.1.0, r.1.1))

-- What getline makes of a line: no byte at the end of the file is a failure.
abbrev pub ended_line : Error → Stream → LineEnd × (Text × Text) → Outcome Stream Text
ended_line failure s (at_newline, (line, rest)) =
    ok line (record s { before = s.before ++ line ++ b'\n' ∷ []; rest = rest })
ended_line failure s (too_long, (line, rest)) =
    threw failure (record s { before = s.before ++ line; rest = rest })
ended_line failure s (at_eof, ([], rest)) = threw failure (record s { eof = true })
ended_line failure s (at_eof, (c ∷ line, rest)) =
    ok (c ∷ line) (record { before = s.before ++ c ∷ line; rest = []; eof = true })

-- `getline(line,128)` on a stream whose eofbit is not set
unfoldable pub getline : Error → Cmd Stream Text
getline failure s = ended_line failure s (split_line 127 s.rest)

abbrev pub tellp : Cmd Stream ℕ
tellp s = ok (length s.before) s

abbrev pub seekg : ℕ → Cmd Stream (Unit {0})
seekg at s =
    ok tt (record { before = take at (text_of s); rest = drop at (text_of s); eof = false })

-- The string of the characters that an istream_iterator gives: it skips white space, and the read at
-- the end fails.
unfoldable pub read_chars : Error → Text → Cmd Stream Text
unfolding is_space
read_chars failure [] s = threw failure (record s { eof = true })
read_chars failure (c ∷ rest) s =
    (do more ← read_chars failure rest; (λ t. ok (if is_space c then more else c ∷ more) t))
      (record s { before = s.before ++ c ∷ []; rest = rest })

unfoldable pub read_rest : Error → Cmd Stream Text
unfolding read_chars
read_rest failure s = read_chars failure s.rest s

-- `f << text`
unfoldable pub put : Bool → Error → Text → Cmd Stream (Unit {0})
put sentry_fails failure text s =
    if s.eof
    then (if sentry_fails then threw failure s else ok tt s)
    else ok tt (record s { before = s.before ++ text; rest = drop (length text) s.rest })

-- `\w` in the C locale
abbrev pub is_word : ℕ → Bool
is_word c =
    leb b'0' c && leb c b'9' || leb b'A' c && leb c b'Z' || leb b'a' c && leb c b'z' || c == b'_'

-- the bytes before a null byte
unfoldable pub c_string : Text → Text
c_string [] = []
c_string (c ∷ s) = let rest = c_string s in if c == 0 then [] else c ∷ rest

unfoldable pub skip_spaces : Text → Text
unfolding is_space
skip_spaces [] = []
skip_spaces (c ∷ s) = let rest = skip_spaces s in if is_space c then rest else c ∷ s

-- the longest word, and what is behind it
unfoldable pub split_word : Text → Text × Text
split_word [] = ([], [])
split_word (c ∷ s) = let r = split_word s in if is_word c then (c ∷ r.0, r.1) else ([], c ∷ s)

-- Behind the name: the value is the last word of the line.
abbrev value_word : Text → Text × Text → Option (Text × Text)
value_word name ([], rest) = none
value_word name (c ∷ v, []) = some (name, c ∷ v)
value_word name (c ∷ v, _ ∷ _) = none

value_behind : Text → Text → Option (Text × Text)
unfolding split_word skip_spaces
value_behind name [] = none
value_behind name (c ∷ s) =
    let r = value_word name (split_word (skip_spaces s)) in if c == b'=' then r else none

name_and_value : Text × Text → Option (Text × Text)
unfolding value_behind skip_spaces
name_and_value ([], rest) = none
name_and_value (c ∷ name, rest) = value_behind (c ∷ name) (skip_spaces rest)

-- regex_match with `^\s*(\w+)\s*=\s*(\w+)`
unfoldable pub match_line : Text → Option (Text × Text)
unfolding name_and_value split_word skip_spaces c_string
match_line line = name_and_value (split_word (skip_spaces (c_string line)))
