-- ===== src/PropertyFile/Unchanged.antt =====
-- Setting a property never changes the text of its file.
use mathlib.Core.List.{append_assoc, append-nil}
use gd2fuse.Base.{
  ==_true, ==_false, ℕ, zero, suc, ◌<◌, ◌≡◌, refl, sym, ap, ◌∙◌, Bool, true, false, [], ◌∷◌, ◌++◌,
  ◌==◌, nat_eq, ◌⊎◌, inl, inr, arith, Text, length, length-append,
}
use native.Mathlib.Decide.{ℕ_discrete}
use gd2fuse.Outcome.{Error, Outcome, ok, threw, fault, out_of_fuel, Cmd, and_then}
use gd2fuse.PropertyFile.FileStream.{
  Stream, text_of, LineEnd, at_eof, at_newline, too_long, split_line, ended_line, getline,
  read_chars, read_rest, put, match_line,
}
use gd2fuse.PropertyFile.{
  update_conf, found_in, Found, same_value, other_value, absent, append_line, rewrite_value,
  with_found, update_round,
}

-- A line, its end and what is left are the text; something is left or the line ended otherwise.
abbrev Splits : Text → LineEnd × (Text × Text) → Type 0
Splits s (at_newline, (line, rest)) = line ++ b'\n' ∷ rest ≡ s
Splits s (too_long, (line, rest)) = line ++ rest ≡ s
Splits s (at_eof, (line, rest)) = line ≡ s

byte-cases : (c d : ℕ) → ((c ≡ d) × ((c == d) ≡ true)) ⊎ ((c == d) ≡ false)
byte-cases c d = elim (ℕ_discrete c d) [
  | yes e ↦ inl (e, ==_true c d e)
  | no h ↦ inr (==_false c d h)
]

cons-Splits :
    (c : ℕ) (s : Text) (r : LineEnd × (Text × Text))
    → Splits s r
    → Splits (c ∷ s) (r.0, (c ∷ r.1.0, r.1.1))
cons-Splits c s (at_newline, (line, rest)) h = ap (λ l. c ∷ l) h
cons-Splits c s (too_long, (line, rest)) h = ap (λ l. c ∷ l) h
cons-Splits c s (at_eof, (line, rest)) h = ap (λ l. c ∷ l) h

split_line-Splits : (room : ℕ) (s : Text) → Splits s (split_line room s)
unfolding split_line
split_line-Splits zero [] = refl
split_line-Splits (suc room) [] = refl
split_line-Splits zero (c ∷ s) = elim (byte-cases c b'\n') [
  | inl (e, b) ↦ rw (b, Splits) (ap (λ x. x ∷ s) (sym e))
  | inr b ↦ rw (b, Splits) refl
]
split_line-Splits (suc room) (c ∷ s) = elim (byte-cases c b'\n') [
  | inl (e, b) ↦ rw (b, Splits) (ap (λ x. x ∷ s) (sym e))
  | inr b ↦ rw (b) (cons-Splits c s (split_line room s) (split_line-Splits room s))
]

-- A line has been read: the text is as before, and the end has been reached or bytes have been taken.
abbrev ReadsLine : Stream → Outcome Stream Text → Type 0
ReadsLine s (ok line t) =
    (text_of t ≡ text_of s) × ((t.eof ≡ true) ⊎ ((t.eof ≡ s.eof) × (length t.rest < length s.rest)))
ReadsLine s (threw e t) = text_of t ≡ text_of s
ReadsLine s fault = ⊥
ReadsLine s out_of_fuel = ⊥

module _ (failure : Error) where
  shorter : (line rest s : Text) → line ++ b'\n' ∷ rest ≡ s → length rest < length s
  shorter line rest s h = omega (arith, ap length h, length-append line (b'\n' ∷ rest))

  ended_line-ReadsLine :
      (s : Stream) (r : LineEnd × (Text × Text))
      → Splits s.rest r
      → ReadsLine s (ended_line failure s r)
  ended_line-ReadsLine s (at_newline, (line, rest)) h = (
    append_assoc (s.before ++ line) (b'\n' ∷ []) rest
        ∙ (append_assoc s.before line (b'\n' ∷ rest) ∙ ap (λ l. s.before ++ l) h),
    inr (refl, shorter line rest s.rest h),
  )
  ended_line-ReadsLine s (too_long, (line, rest)) h =
      append_assoc s.before line rest ∙ ap (λ l. s.before ++ l) h
  ended_line-ReadsLine s (at_eof, ([], rest)) h = refl
  ended_line-ReadsLine s (at_eof, (c ∷ line, rest)) h =
      (append-nil (s.before ++ c ∷ line) ∙ ap (λ l. s.before ++ l) h, inl refl)

  getline-ReadsLine : (s : Stream) → ReadsLine s (getline failure s)
  unfolding getline
  getline-ReadsLine s =
      ended_line-ReadsLine s (split_line 127 s.rest) (split_line-Splits 127 s.rest)

  -- The characters up to the end can not be read without the failure at the end.
  read_chars-throws :
      (rest : Text) (s : Stream)
      → s.rest ≡ rest
      → (t : Stream) × (read_chars failure rest s ≡ threw failure t) × (text_of t ≡ text_of s)
  unfolding read_chars
  read_chars-throws [] s h = (record s { eof = true }, refl, refl)
  read_chars-throws (c ∷ rest) s h =
      let (t, e, same) =
        read_chars-throws rest (record s { before = s.before ++ c ∷ []; rest = rest }) refl in
      (
        t,
        rw (e) refl,
        same ∙ (append_assoc s.before (c ∷ []) rest ∙ ap (λ l. s.before ++ l) (sym h)),
      )

-- A run that ends, with a result or an exception, and leaves the text.
abbrev pub Leaves : {A : Type 0} → Text → Outcome Stream A → Type 0
Leaves text (ok a t) = text_of t ≡ text
Leaves text (threw e t) = text_of t ≡ text
Leaves text fault = ⊥
Leaves text out_of_fuel = ⊥

-- Rounds that are enough for what is left of a stream.
abbrev pub Enough : ℕ → Stream → Type 0
Enough k s = (0 < k) × ((s.eof ≡ true) ⊎ (suc (length s.rest) < k))

module _ (sentry_fails : Bool) (failure : Error) (name val : Text) where
  append_line-Leaves :
      (s : Stream) → s.eof ≡ true → Leaves (text_of s) (append_line sentry_fails failure name val s)
  unfolding append_line put
  append_line-Leaves s e = by_sentry sentry_fails
    where
      by_sentry : (b : Bool) → Leaves (text_of s) (append_line b failure name val s)
      by_sentry true = rw (e, Leaves) refl
      by_sentry false = rw (e, Leaves) refl

  rewrite_value-Leaves :
      (size : ℕ) (s : Stream) → Leaves (text_of s) (rewrite_value sentry_fails failure val size s)
  unfolding rewrite_value read_rest
  rewrite_value-Leaves size s =
      let (t, e, same) = read_chars-throws failure s.rest s refl in rw (e, Leaves) same

  with_found-Leaves :
      (again : Cmd Stream Bool) (f : Found) (t : Stream)
      → Leaves (text_of t) (again t)
      → Leaves (text_of t) (with_found sentry_fails failure again val f t)
  with_found-Leaves again same_value t h = refl
  with_found-Leaves again (other_value size) t h = rewrite_value-Leaves size t
  with_found-Leaves again absent t h = h

  after_line-Leaves :
      (again : Cmd Stream Bool) (s : Stream) (k : ℕ) (o : Outcome Stream Text)
      → ReadsLine s o
      → s.eof ≡ false
      → Enough (suc k) s
      → ((t : Stream) → Enough k t → Leaves (text_of t) (again t))
      → Leaves (text_of s) (
          and_then o (λ line.
            with_found sentry_fails failure again val (found_in name val (match_line line))))
  after_line-Leaves again s k (ok line t) (same, left) e (_, inl g) h = absurd (cc)
  after_line-Leaves again s k (ok line t) (same, inl ended) e (_, inr g) h = rw (sym same) (
      with_found-Leaves again (found_in name val (match_line line)) t
        (h t (omega (arith, g), inl ended)))
  after_line-Leaves again s k (ok line t) (same, inr (_, less)) e (_, inr g) h = rw (sym same) (
      with_found-Leaves again (found_in name val (match_line line)) t
        (h t (omega (arith, g), inr (omega (arith, g, less)))))
  after_line-Leaves again s k (threw e t) same f g h = same
  after_line-Leaves again s k fault same e g h = absurd same
  after_line-Leaves again s k out_of_fuel same e g h = absurd same

  update_round-Leaves :
      (again : Cmd Stream Bool) (s : Stream) (k : ℕ) (b : Bool)
      → s.eof ≡ b
      → Enough (suc k) s
      → ((t : Stream) → Enough k t → Leaves (text_of t) (again t))
      → Leaves (text_of s) (update_round sentry_fails failure again name val b s)
  update_round-Leaves again s k true e g h = append_line-Leaves s e
  update_round-Leaves again s k false e g h =
      after_line-Leaves again s k (getline failure s) (getline-ReadsLine failure s) e g h

  pub update_conf-Leaves :
      (k : ℕ) (s : Stream)
      → Enough k s
      → Leaves (text_of s) (update_conf sentry_fails failure k name val s)
  unfolding update_conf
  update_conf-Leaves zero s h = absurd (omega (arith, h.0))
  update_conf-Leaves (suc k) s h =
      update_round-Leaves (update_conf sentry_fails failure k name val) s k s.eof refl h
        (update_conf-Leaves k)
