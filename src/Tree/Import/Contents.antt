-- ===== src/Tree/Import/Contents.antt =====
-- The copy of a file's bytes by importNreplace, over content that is read as a sequence of blocks.
use gd2fuse.Base.{
  ℕ, zero, suc, ◌+◌, ◌≡◌, refl, ap, ◌∙◌, ◌<◌, arith, true, Option, some, List, [], ◌∷◌, length,
}
use gd2fuse.Outcome.{ok}
use gd2fuse.Tree.{done, Backend, Fs}
use gd2fuse.Tree.Content.{FileHandle}
use gd2fuse.Tree.Content.Handle.{Descriptors, handle_write}
use gd2fuse.Tree.Import.{SourceContent, copy_blocks}

-- What `read` gives from the offset on: the blocks, none of them empty, and then the end of the file.
abbrev pub Reads : SourceContent → ℕ → List (List ℕ) → Type 0
Reads c offset [] = c.read 4096 offset ≡ some []
Reads c offset ([] ∷ bs) = ⊥
Reads c offset ((x ∷ xs) ∷ bs) =
    (c.read 4096 offset ≡ some (x ∷ xs)) × Reads c (offset + length (x ∷ xs)) bs

-- The state of the world after each block, read at an offset, has been written at the offset where it
-- ends.
abbrev pub shifted : {W : Type 0} → (List ℕ → ℕ → W → W) → ℕ → List (List ℕ) → W → W
shifted wrote offset [] w = w
shifted wrote offset (block ∷ bs) w =
    shifted wrote (offset + length block) bs (wrote block (offset + length block) w)

-- The handle after the blocks.
abbrev pub written_handle : List (List ℕ) → FileHandle → FileHandle
written_handle [] h = h
written_handle (_ ∷ bs) h = record h { changed = true }

module _ (b : Backend) (cm : Descriptors b.World)
    (wrote : Option ℕ → List ℕ → ℕ → b.World → b.World) where
  handle_write-wrote :
      (h : FileHandle) (s : Fs b.World) (buf : List ℕ) (offset : ℕ)
      → cm.write_content h.fd buf offset s.world ≡ done (length buf) (wrote h.fd buf offset s.world)
      → handle_write b cm buf offset (h, s)
        ≡ ok
            (length buf)
            (record h { changed = true }, record s { world = wrote h.fd buf offset s.world })
  unfolding handle_write
  handle_write-wrote h s buf offset e = rw (e) refl

  written_twice :
      (bs : List (List ℕ)) (h : FileHandle)
      → written_handle bs (record h { changed = true }) ≡ record h { changed = true }
  written_twice [] h = refl
  written_twice (_ ∷ bs) h = refl

  copy_blocks-block :
      (c : SourceContent) (x : ℕ) (xs : List ℕ) (k offset : ℕ) (h : FileHandle) (s : Fs b.World)
      → c.read 4096 offset ≡ some (x ∷ xs)
      → cm.write_content h.fd (x ∷ xs) (offset + length (x ∷ xs)) s.world
        ≡ done (length (x ∷ xs)) (wrote h.fd (x ∷ xs) (offset + length (x ∷ xs)) s.world)
      → copy_blocks b cm c (suc k) offset (h, s)
        ≡ copy_blocks b cm c k (offset + length (x ∷ xs)) (
          record h { changed = true },
          record s { world = wrote h.fd (x ∷ xs) (offset + length (x ∷ xs)) s.world },
        )
  unfolding copy_blocks
  copy_blocks-block c x xs k offset h s r w =
      rw (copy_blocks, r, handle_write-wrote h s (x ∷ xs) (offset + length (x ∷ xs)) w) refl

  -- Over content that is read as a sequence of blocks and a destination that takes all writes, the copy
  -- ends within any number of rounds above the number of blocks, and each block has been written not at
  -- the offset it was read from but at the offset where it ends.
  pub copy_blocks-shifted :
      (c : SourceContent) (bs : List (List ℕ)) (k offset : ℕ) (h : FileHandle) (s : Fs b.World)
      → length bs < k
      → Reads c offset bs
      → ((buf : List ℕ) (at : ℕ) (w : b.World)
          → cm.write_content h.fd buf at w ≡ done (length buf) (wrote h.fd buf at w))
      → copy_blocks b cm c k offset (h, s)
        ≡ ok tt (written_handle bs h, record s { world = shifted (wrote h.fd) offset bs s.world })
  unfolding copy_blocks
  copy_blocks-shifted c bs zero offset h s l r w = absurd (omega (arith, l))
  copy_blocks-shifted c [] (suc k) offset h s l r w = rw (copy_blocks, r) refl
  copy_blocks-shifted c ([] ∷ bs) (suc k) offset h s l r w = absurd r
  copy_blocks-shifted c ((x ∷ xs) ∷ bs) (suc k) offset h s l r w =
      copy_blocks-block c x xs k offset h s r.0 (w (x ∷ xs) (offset + length (x ∷ xs)) s.world)
      ∙ (copy_blocks-shifted c bs k (offset + length (x ∷ xs)) (record h { changed = true })
            (record s { world = wrote h.fd (x ∷ xs) (offset + length (x ∷ xs)) s.world })
            (omega (arith, l)) r.1 w
          ∙ ap
              (λ g.
                ok tt (g, record s { world = shifted (wrote h.fd) offset ((x ∷ xs) ∷ bs) s.world }))
              (written_twice bs h))
