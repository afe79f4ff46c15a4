-- ===== src/ConfFs/Reading.antt =====
-- Reading a file of the configuration in blocks.
use mathlib.Core.Option
use gd2fuse.Base.{
  ℕ, zero, suc, ◌+◌, ◌-◌, ◌<◌, ◌≤◌, ◌≡◌, ◌≢◌, refl, sym, ap, ◌∙◌, inl, inr, ◌⊎◌, Option, none, some,
  [], ◌∷◌, ◌++◌, arith, Text, length, take, drop,
}
use native.Mathlib.Nat.{zero-add, suc-add}
use gd2fuse.ConfFs.{ContentHandle, read, int_max}

-- Reading blocks of `size` bytes from an offset on, until a block is empty; `none` is an exception or
-- too few rounds.
unfoldable pub read_blocks : ℕ → ContentHandle → ℕ → ℕ → Option Text
read_blocks zero h size offset = none
read_blocks (suc k) h size offset =
    let rest =
      λ (bs : Text). Option.map (λ t. bs ++ t) (read_blocks k h size (offset + length bs)) in
    elim (read h size offset).1 [ none ↦ none | some [] ↦ some [] | some (b ∷ bs) ↦ rest (b ∷ bs) ]

length-take : (n : ℕ) (s : Text) → length (take n s) ≤ n
length-take zero s = omega arith
length-take (suc n) [] = omega arith
length-take (suc n) (c ∷ s) = omega (arith, length-take n s)

take-drop : (n : ℕ) (s : Text) → take n s ++ drop (length (take n s)) s ≡ s
take-drop zero s = refl
take-drop (suc n) [] = refl
take-drop (suc n) (c ∷ s) = ap (◌∷◌ c) (take-drop n s)

drop-nil : (n : ℕ) → drop {A = ℕ} n [] ≡ []
drop-nil zero = refl
drop-nil (suc n) = refl

drop-drop : (a b : ℕ) (s : Text) → drop b (drop a s) ≡ drop (a + b) s
drop-drop zero b s = rw zero-add refl
drop-drop (suc a) b [] = drop-nil b ∙ rw suc-add refl
drop-drop (suc a) b (c ∷ s) = rw suc-add (drop-drop a b s)

length-drop : (n : ℕ) (s : Text) → length (drop n s) ≡ length s - n
length-drop zero s = omega arith
length-drop (suc n) [] = omega arith
length-drop (suc n) (c ∷ s) = omega (arith, length-drop n s)

take-empty : (n : ℕ) (s : Text) → 0 < n → take n s ≡ [] → s ≡ []
take-empty zero s p h = absurd (omega arith)
take-empty (suc n) [] p h = refl
take-empty (suc n) (c ∷ s) p h = cc

length-take-le : (n : ℕ) (s : Text) → length (take n s) ≤ length s
length-take-le zero s = omega arith
length-take-le (suc n) [] = omega arith
length-take-le (suc n) (c ∷ s) = omega (arith, length-take-le n s)

length-nonempty : (s : Text) → s ≢ [] → 0 < length s
length-nonempty [] h = absurd (h refl)
length-nonempty (c ∷ s) h = omega arith

empty-cases : (s : Text) → (s ≡ []) ⊎ (s ≢ [])
empty-cases [] = inl refl
empty-cases (c ∷ s) = inr (λ h. cc)

module _ (h : ContentHandle) (size : ℕ) where
  abbrev block : ℕ → Text
  block offset = take size (drop offset h.s)

  read-block :
      (offset : ℕ)
      → offset ≤ length h.s
      → size ≤ int_max
      → (read h size offset).1 ≡ some (block offset)
  unfolding read
  read-block offset inside small = ground (arith, length-take size (drop offset h.s))

  blocks-step :
      (k offset : ℕ) (b : Text)
      → (read h size offset).1 ≡ some b
      → b ≢ []
      → read_blocks (suc k) h size offset
        ≡ Option.map (λ t. b ++ t) (read_blocks k h size (offset + length b))
  unfolding read_blocks
  blocks-step k offset [] e some_left = absurd (some_left refl)
  blocks-step k offset (c ∷ b) e some_left = rw (e, read_blocks) refl

  blocks-end :
      (k offset : ℕ)
      → (read h size offset).1 ≡ some []
      → read_blocks (suc k) h size offset ≡ some []
  unfolding read_blocks
  blocks-end k offset e = rw (e, read_blocks) refl

  blocks-from :
      (k offset : ℕ)
      → 0 < size
      → size ≤ int_max
      → offset ≤ length h.s
      → length h.s - offset < k
      → read_blocks k h size offset ≡ some (drop offset h.s)
  blocks-from zero offset p small inside enough = absurd (omega arith)
  blocks-from (suc k) offset p small inside enough = elim (empty-cases (block offset)) [
    | inl empty ↦
        let at_end = take-empty size (drop offset h.s) p empty in
        blocks-end k offset (read-block offset inside small ∙ ap some empty) ∙ ap some (sym at_end)
    | inr more ↦
        let shorter = length-take-le size (drop offset h.s) in
        let left = length-drop offset h.s in
        let longer = length-nonempty (block offset) more in
        let ih =
          blocks-from k (offset + length (block offset)) p small (omega (arith, shorter, left))
            (omega (arith, shorter, left, longer)) in
        blocks-step k offset (block offset) (read-block offset inside small) more
        ∙ ap (Option.map (λ t. block offset ++ t)) ih
        ∙ ap some (
            ap (λ t. block offset ++ t) (sym (drop-drop offset (length (block offset)) h.s))
            ∙ take-drop size (drop offset h.s))
  ]

  -- Reading the file block by block from its start, until a block is empty, gives the whole text that
  -- the handle has had since it was opened, and no read fails, with more rounds than the text has
  -- bytes. Blocks have at least one byte, and at most as many as an `int` counts.
  pub read_blocks-whole :
      (k : ℕ) → 0 < size → size ≤ int_max → length h.s < k → read_blocks k h size 0 ≡ some h.s
  read_blocks-whole k p small enough = blocks-from k 0 p small (omega arith) (omega arith)

-- A read behind the end of the text is an exception, and not the end of the file.
pub read-behind :
    (h : ContentHandle) (size offset : ℕ) → length h.s < offset → (read h size offset).1 ≡ none
unfolding read
read-behind h size offset behind = ground arith
