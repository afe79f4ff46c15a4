-- ===== src/Content/Reading.antt =====
-- readContent over short and failing reads.
use mathlib.Core.List.{append_assoc, append-nil}
use gd2fuse.Base.{
  nat_eq, ℕ, zero, suc, ◌+◌, ◌-◌, ◌<◌, ◌≤◌, ◌≡◌, ◌≢◌, refl, sym, ap, ◌∙◌, List, [], ◌∷◌, ◌++◌,
  length, take, drop, arith,
}
use gd2fuse.Outcome.{ok, Cmd}
use gd2fuse.Content.{Bytes, Reads, bytes, failed, eintr, read_loop, read_content}

module _ {A : Type 0} where
  take-nil : (n : ℕ) → take {A = A} n [] ≡ []
  take-nil zero = refl
  take-nil (suc n) = refl

  drop-nil : (n : ℕ) → drop {A = A} n [] ≡ []
  drop-nil zero = refl
  drop-nil (suc n) = refl

  take-drop : (n m : ℕ) (xs : List A) → take n xs ++ take m (drop n xs) ≡ take (n + m) xs
  take-drop zero m xs = ap (λ k. take k xs) (omega arith)
  take-drop (suc n) m [] = take-nil m ∙ sym (take-nil (suc n + m))
  take-drop (suc n) m (x ∷ xs) =
      let same : suc (n + m) ≡ suc n + m = omega arith in
      ap (◌∷◌ x) (take-drop n m xs) ∙ ap (λ k. take k (x ∷ xs)) same

  drop-drop : (n m : ℕ) (xs : List A) → drop m (drop n xs) ≡ drop (n + m) xs
  drop-drop zero m xs = ap (λ k. drop k xs) (omega arith)
  drop-drop (suc n) m [] = drop-nil m ∙ sym (drop-nil (suc n + m))
  drop-drop (suc n) m (x ∷ xs) =
      let same : suc (n + m) ≡ suc n + m = omega arith in
      drop-drop n m xs ∙ ap (λ k. drop k (x ∷ xs)) same

  length-take : (n : ℕ) (xs : List A) → n ≤ length xs → length (take n xs) ≡ n
  length-take zero xs h = refl
  length-take (suc n) [] h = absurd (omega arith)
  length-take (suc n) (x ∷ xs) h = omega (arith, length-take n xs)

-- What is assumed of `pread` on a file: it changes nothing, and gives some of the bytes that were asked
-- for from the offset on, and none only at the end of the file.
pub record IsFile {W : Type 0} (pread : ℕ → ℕ → Cmd W Reads) (file : Bytes) : Type 0 where
  pub given : ℕ → ℕ → ℕ
  pub reads :
      (len offset : ℕ) (w : W)
      → pread len offset w ≡ ok (bytes (take (given len offset) (drop offset file))) w
  pub asked : (len offset : ℕ) → given len offset ≤ len
  pub inside : (len offset : ℕ) → given len offset ≤ length (drop offset file)
  pub ends : (len offset : ℕ) → 0 < len → given len offset ≡ 0 → drop offset file ≡ []

module _ {W : Type 0} (pread : ℕ → ℕ → Cmd W Reads) (file : Bytes) (v : IsFile pread file)
    (w : W) where
  -- A part of the file with the part behind it.
  parts-joined :
      (n len offset : ℕ) (buf bs : Bytes)
      → bs ≡ take n (drop offset file)
      → length bs ≡ n
      → n ≤ len
      → (buf ++ bs) ++ take (len - length bs) (drop (offset + length bs) file)
        ≡ buf ++ take len (drop offset file)
  parts-joined n len offset buf bs part size h =
      let whole : n + (len - n) ≡ len = omega arith in
      append_assoc buf bs _
      ∙ ap (λ t. buf ++ t)
          (ap (λ k. bs ++ take (len - k) (drop (offset + k) file)) size
            ∙ ap (λ b. b ++ take (len - n) (drop (offset + n) file)) part
            ∙ ap (λ r. take n (drop offset file) ++ take (len - n) r)
                (sym (drop-drop offset n file))
            ∙ take-drop n (len - n) (drop offset file)
            ∙ ap (λ k. take k (drop offset file)) whole)

  -- One round of the loop, by the bytes that it reads; `next` is the rest of the loop.
  round-file :
      (k len offset n : ℕ) (buf bs : Bytes)
      → n ≡ v.given (suc len) offset
      → bs ≡ take n (drop offset file)
      → length bs ≡ n
      → pread (suc len) offset w ≡ ok (bytes bs) w
      → ((l o : ℕ) (c : Bytes)
          → l < suc len
          → read_loop pread k l o c w ≡ ok (c ++ take l (drop o file)) w)
      → read_loop pread (suc k) (suc len) offset buf w
        ≡ ok (buf ++ take (suc len) (drop offset file)) w
  unfolding read_loop
  round-file k len offset n buf [] same part size given next =
      let at_end : drop offset file ≡ [] = v.ends (suc len) offset (omega arith) (omega arith) in
      rw (given, read_loop)
        (ap (λ b. ok b w) (sym (append-nil buf) ∙ ap (λ r. buf ++ take (suc len) r) (sym at_end)))
  round-file k len offset n buf (b ∷ bs) same part size given next =
      let m : ℕ = length (b ∷ bs) in
      rw (given, read_loop)
        (next (suc len - m) (offset + m) (buf ++ b ∷ bs) (omega arith)
          ∙ ap (λ t. ok t w)
              (parts-joined n (suc len) offset buf (b ∷ bs) part size
                (omega (arith, v.asked (suc len) offset))))

  read_loop-file :
      (k len offset : ℕ) (buf : Bytes)
      → len < k
      → read_loop pread k len offset buf w ≡ ok (buf ++ take len (drop offset file)) w
  unfolding read_loop
  read_loop-file zero len offset buf h = absurd (omega arith)
  read_loop-file (suc k) zero offset buf h = ap (λ b. ok b w) (sym (append-nil buf))
  read_loop-file (suc k) (suc len) offset buf h =
      let n : ℕ = v.given (suc len) offset in
      round-file k len offset n buf (take n (drop offset file)) refl refl
        (length-take n (drop offset file) (v.inside (suc len) offset)) (v.reads (suc len) offset w)
        (λ l o c lt. read_loop-file k l o c (omega arith))

  -- readContent with enough fuel, one more than the bytes asked for, gives the bytes of the file from
  -- the offset on, as many as were asked for or as there are, however short the single reads are.
  pub read_content-file :
      (fuel len offset : ℕ)
      → len < fuel
      → read_content pread fuel len offset w ≡ ok (take len (drop offset file)) w
  unfolding read_content
  read_content-file fuel len offset h = read_loop-file fuel len offset [] h

-- If the first read fails for another reason than an interrupt, readContent gives no bytes and no error,
-- as it does at the end of the file.
pub read_content-failed :
    {W : Type 0} (pread : ℕ → ℕ → Cmd W Reads) (k len offset errno : ℕ) (w u : W)
    → errno ≢ eintr
    → pread (suc len) offset w ≡ ok (failed errno) u
    → read_content pread (suc k) (suc len) offset w ≡ ok [] u
unfolding read_content read_loop
read_content-failed pread k len offset errno w u other fails = ground (arith, other, fails)
