-- ===== src/Content/Files/Copying.antt =====
-- What createFile leaves in the file.
use gd2fuse.Base.{
  ℕ, zero, suc, ◌<◌, ◌≡◌, refl, sym, ap, ◌∙◌, true, false, Option, none, some, List, [], ◌∷◌, ◌++◌,
  length, take, arith,
}
use mathlib.Core.Path.{ap₂}
use mathlib.Core.List.{append_assoc, append-nil}
use gd2fuse.Outcome.{Error, Outcome, ok, threw}
use gd2fuse.Content.{Bytes, id2file_name}
use gd2fuse.Content.Files.{
  success, Calls, IReader, copy_loop, copied, copy_into, closed, make_parent, create_file, told,
}

-- The parts of the blocks that the calls of `write` took.
unfoldable pub parts : List Bytes → List ℕ → Bytes
parts (b ∷ bs) (n ∷ ns) = take n b ++ parts bs ns
parts _ _ = []

module _ {D : Type 0} (sys : Calls D) where
  -- What a file has by its descriptor: nothing when it is made, and behind a call of `write` also the
  -- bytes that the call took.
  pub record FileLaws (file : ℕ → D → Bytes) : Type 0 where
    pub creat_lem :
        (p : List Bytes) (fd : ℕ) (d d' : D) → sys.creat p d ≡ (success fd, d') → file fd d' ≡ []
    pub write_lem :
        (fd n : ℕ) (b : Bytes) (d d' : D)
        → sys.write fd b d ≡ (success n, d')
        → file fd d' ≡ file fd d ++ take n b

module _ {D R : Type 0} (sys : Calls D) (content : IReader R) where
  -- The reader gives these blocks and is done.
  abbrev pub Gives : R → List Bytes → R → Type 0
  Gives r [] r' = (content.done r ≡ true) × (r ≡ r')
  Gives r (b ∷ bs) r' =
      (content.done r ≡ false) × (m : R) × (content.read 4096 r ≡ ok b m) × Gives m bs r'

  -- The blocks are written to `fd` one after the other, of each as many bytes as the number says.
  abbrev pub Written : ℕ → List Bytes → List ℕ → D → D → Type 0
  Written fd [] [] d d' = d ≡ d'
  Written fd (b ∷ bs) (n ∷ ns) d d' =
      (m : D) × (sys.write fd b d ≡ (success n, m)) × Written fd bs ns m d'
  Written fd _ _ d d' = ⊥

  module _ (fd : ℕ) where
    copy_loop-done :
        (k : ℕ) (r : R) (d : D)
        → content.done r ≡ true
        → copy_loop sys content (suc k) fd (r, d) ≡ ok tt (r, d)
    unfolding copy_loop
    copy_loop-done k r d h = rw h refl

    copy_loop-next :
        (k : ℕ) (b : Bytes) (n : ℕ) (r m : R) (d d' : D)
        → content.done r ≡ false
        → content.read 4096 r ≡ ok b m
        → sys.write fd b d ≡ (success n, d')
        → copy_loop sys content (suc k) fd (r, d) ≡ copy_loop sys content k fd (m, d')
    unfolding copy_loop
    copy_loop-next k b n r m d d' h g w = rw (h, g, w) refl

    copy_loop-Written :
        (k : ℕ) (bs : List Bytes) (ns : List ℕ) (r r' : R) (d d' : D)
        → length bs < k
        → Gives r bs r'
        → Written fd bs ns d d'
        → copy_loop sys content k fd (r, d) ≡ ok tt (r', d')
    copy_loop-Written zero bs ns r r' d d' l g w = absurd (omega (arith, l))
    copy_loop-Written (suc k) [] [] r r' d d' l g w =
        copy_loop-done k r d g.0 ∙ ap₂ (λ (a : R) (c : D). ok tt (a, c)) g.1 w
    copy_loop-Written (suc k) [] (n ∷ ns) r r' d d' l g w = elim w [ ]
    copy_loop-Written (suc k) (b ∷ bs) [] r r' d d' l g w = elim w [ ]
    copy_loop-Written (suc k) (b ∷ bs) (n ∷ ns) r r' d d' l g w =
        copy_loop-next k b n r g.1 d w.0 g.0 g.2 w.1
        ∙ copy_loop-Written k bs ns g.1 r' w.0 d' (omega (arith, l)) g.3 w.2

  module _ (file : ℕ → D → Bytes) (laws : FileLaws sys file) where
    file-Written :
        (fd : ℕ) (bs : List Bytes) (ns : List ℕ) (d d' : D)
        → Written fd bs ns d d'
        → file fd d' ≡ file fd d ++ parts bs ns
    unfolding parts
    file-Written fd [] [] d d' w = ap (file fd) (sym w) ∙ sym (append-nil (file fd d))
    file-Written fd [] (n ∷ ns) d d' w = elim w [ ]
    file-Written fd (b ∷ bs) [] d d' w = elim w [ ]
    file-Written fd (b ∷ bs) (n ∷ ns) d d' w =
        file-Written fd bs ns w.0 d' w.2
        ∙ ap (λ x. x ++ parts bs ns) (laws.write_lem fd n b d w.0 w.1)
        ∙ append_assoc (file fd d) (take n b) (parts bs ns)

    abbrev pub Left : ℕ → Bytes → R → D → Outcome (R × D) (Unit {0}) → Type 0
    Left fd all r d o =
        (file fd d ≡ all)
        × (o ≡ elim (content.error r) [
          | none ↦ ok tt (r, sys.close fd d)
          | some e ↦ threw e (r, sys.close fd d)
        ])

    end :
        (fd : ℕ) (r : R) (d : D) (o : Option Error)
        → closed sys fd (told o (r, d))
          ≡ elim o [ none ↦ ok tt (r, sys.close fd d) | some e ↦ threw e (r, sys.close fd d) ]
    end fd r d none = refl
    end fd r d (some e) = refl

    -- createFile with a reader that gives blocks until it is done: the file has, when it is closed, of
    -- each block the part that its call of `write` took, and nothing else; an error that the reader has
    -- then is thrown, and the file is left as it is. The directory is there or can be made, the file
    -- can be created, no call of `write` fails, and there are more rounds than blocks.
    pub create_file-Left :
        (k fd : ℕ) (id : Bytes) (bs : List Bytes) (ns : List ℕ) (r r' : R) (d d₁ d₂ d₃ : D)
        → length bs < k
        → make_parent sys (id2file_name id) (r, d) ≡ ok tt (r, d₁)
        → sys.creat (id2file_name id) d₁ ≡ (success fd, d₂)
        → Gives r bs r'
        → Written fd bs ns d₂ d₃
        → Left fd (parts bs ns) r' d₃ (create_file sys k id (some content) (r, d))
    unfolding create_file copy_into copied
    create_file-Left k fd id bs ns r r' d d₁ d₂ d₃ l made created g w = (
      file-Written fd bs ns d₂ d₃ w
          ∙ ap (λ x. x ++ parts bs ns) (laws.creat_lem (id2file_name id) fd d₁ d₂ created),
      rw (made, created, copy_loop-Written fd k bs ns r r' d₂ d₃ l g w)
          (end fd r' d₃ (content.error r')),
    )
