-- ===== src/PropertyFile/Lines.antt =====
-- What is read of a file of lines.
use gd2fuse.Base.{
  ==_false, ℕ, zero, suc, ◌≤◌, ◌<◌, ◌≡◌, ◌≢◌, refl, ap, ◌∙◌, Bool, true, false, Option, none, some,
  List, [], ◌∷◌, ◌++◌, nat_eq, arith, Text, length, length-append, All, if◌then◌else◌,
}
use gd2fuse.Outcome.{Error, Outcome, ok, threw, Cmd, and_then}
use gd2fuse.PropertyFile.FileStream.{
  Stream, opened, at_eof, at_newline, split_line, getline, match_line,
}
use gd2fuse.PropertyFile.{
  value_in, with_value, read_conf, Property, Disk, after_read, refresh_found, get_value, rounds,
  bad_file,
}

-- A line that getline can take: no line break in it, and not too long for its buffer.
abbrev pub IsLine : Text → Type 0
IsLine line = All (λ c. c ≢ b'\n') line × (length line ≤ 127)

abbrev pub unlines : List Text → Text → Text
unlines [] last = last
unlines (line ∷ lines) last = line ++ b'\n' ∷ unlines lines last

-- What getValue gives and leaves, for the lines of a file and what stands behind its last line break.
module _ (failure : Error) (name upstream : Text) (p : Property) where
  abbrev pub found_value : Text → Outcome Property Text
  found_value v = ok v (record p { value = v; changed = true })

  abbrev last_value : Option Text → Outcome Property Text
  last_value (some v) = found_value v
  last_value none = ok (if p.changed then p.value else upstream) p

  abbrev pub behind_lines : Text → Outcome Property Text
  behind_lines [] = threw failure p
  behind_lines (c ∷ last) = last_value (value_in name (match_line (c ∷ last)))

  abbrev pub value_or : Outcome Property Text → Option Text → Outcome Property Text
  value_or rest (some v) = found_value v
  value_or rest none = rest

  abbrev pub value_of : List Text → Text → Outcome Property Text
  value_of [] last = behind_lines last
  value_of (line ∷ lines) last = value_or (value_of lines last) (value_in name (match_line line))

split_line-newline :
    (room : ℕ) (line rest : Text)
    → All (λ c. c ≢ b'\n') line
    → length line ≤ room
    → split_line room (line ++ b'\n' ∷ rest) ≡ (at_newline, (line, rest))
unfolding split_line nat_eq
split_line-newline zero [] rest h l = refl
split_line-newline (suc room) [] rest h l = refl
split_line-newline zero (c ∷ line) rest h l = absurd (omega (arith, l))
split_line-newline (suc room) (c ∷ line) rest h l =
    rw (==_false c b'\n' h.0, split_line-newline room line rest h.1 (omega (arith, l))) refl

split_line-last :
    (room : ℕ) (last : Text)
    → All (λ c. c ≢ b'\n') last
    → length last ≤ room
    → split_line room last ≡ (at_eof, (last, []))
unfolding split_line
split_line-last room [] h l = by_room room
  where
    by_room : (room : ℕ) → split_line room [] ≡ (at_eof, ([], []))
    by_room zero = refl
    by_room (suc room) = refl
split_line-last zero (c ∷ last) h l = absurd (omega (arith, l))
split_line-last (suc room) (c ∷ last) h l =
    rw (==_false c b'\n' h.0, split_line-last room last h.1 (omega (arith, l))) refl

module _ (sentry_fails : Bool) (failure : Error) (d : Disk) (name upstream : Text)
    (p : Property) where
  -- getValue behind the loop
  abbrev told : Outcome Stream (Option Text) → Outcome Property Text
  told o =
      and_then (after_read sentry_fails failure d p o)
        (λ _ q. ok (if q.changed then q.value else upstream) q)

  told_value :
      (again : Cmd Stream (Option Text)) (s : Stream) (o : Option Text)
      (rest : Outcome Property Text)
      → told (again s) ≡ rest
      → told (with_value again o s) ≡ value_or failure name upstream p rest o
  told_value again s (some v) rest h = refl
  told_value again s none rest h = h

  told_last :
      (k : ℕ) (before : Text) (o : Option Text)
      → told (
          with_value
            (read_conf failure (suc k) name)
            o
            (record { before = before; rest = []; eof = true }))
        ≡ last_value failure name upstream p o
  unfolding read_conf
  told_last k before (some v) = refl
  told_last k before none = refl

  told-lines :
      (k : ℕ) (before : Text) (lines : List Text) (last : Text)
      → All IsLine lines
      → IsLine last
      → suc (length lines) < k
      → told (
          read_conf failure k name
            (record { before = before; rest = unlines lines last; eof = false }))
        ≡ value_of failure name upstream p lines last
  unfolding read_conf getline
  told-lines zero before lines last h g l = absurd (omega (arith, l))
  told-lines (suc zero) before lines last h g l = absurd (omega (arith, l))
  told-lines (suc (suc k)) before [] [] h g l =
      rw (read_conf, getline, split_line-last 127 [] g.0 g.1) refl
  told-lines (suc (suc k)) before [] (c ∷ last) h g l =
      rw (read_conf, getline, split_line-last 127 (c ∷ last) g.0 g.1)
        (told_last k (before ++ c ∷ last) (value_in name (match_line (c ∷ last))))
  told-lines (suc k) before (line ∷ lines) last h g l =
      rw (read_conf, getline, split_line-newline 127 line (unlines lines last) h.0.0 h.0.1)
        (told_value (read_conf failure k name) _ (value_in name (match_line line)) _
          (told-lines k (before ++ line ++ b'\n' ∷ []) lines last h.1 g (omega (arith, l))))

  length-unlines : (lines : List Text) (last : Text) → length lines ≤ length (unlines lines last)
  length-unlines [] last = omega arith
  length-unlines (line ∷ lines) last =
      omega (arith, length-unlines lines last, length-append line (b'\n' ∷ unlines lines last))

  told_if :
      (b : Bool) (text : Text)
      → b ≡ true
      → and_then
          (if b
            then after_read sentry_fails failure d p
                (read_conf failure (rounds text) name (opened text))
            else threw bad_file p)
          (λ _ q. ok (if q.changed then q.value else upstream) q)
        ≡ told (read_conf failure (rounds text) name (opened text))
  told_if b text e = rw e refl

  -- Of a file of lines that fit getline's buffer, which can be opened, getValue gives the value of the
  -- first line with the property's name, and keeps it. If there is none, it gives what is kept or the
  -- value of the property upstream, but only if the file does not end with a line break; if it does, or
  -- is empty, the failure to read behind its end is thrown.
  pub get_value-lines :
      (lines : List Text) (last : Text)
      → p.file ≡ some (unlines lines last)
      → d.opens ≡ true
      → All IsLine lines
      → IsLine last
      → get_value sentry_fails failure d name upstream p
        ≡ value_of failure name upstream p lines last
  unfolding get_value
  get_value-lines lines last e opens h g =
      let text = unlines lines last in
      ap
        (λ file.
          and_then (refresh_found sentry_fails failure d name p file)
            (λ _ q. ok (if q.changed then q.value else upstream) q))
        e
      ∙ (told_if d.opens text opens
          ∙ told-lines (rounds text) [] lines last h g (omega (arith, length-unlines lines last)))
