-- ===== src/Gate/Handler/Listing.antt =====
-- readdir.
use gd2fuse.Base.{
  ℕ, String, Bool, true, ◌≡◌, Option, none, some, List, [], ◌∷◌, ◌++◌, nat_eq, list_eq, string_eq,
  if◌then◌else◌, arith,
}
use mathlib.Core.List.{append-nil}
use gd2fuse.Errno.{enomem}
use gd2fuse.FileSystem.{Operations}
use gd2fuse.Outcome.{Error, ok}
use gd2fuse.Gate.{pos, negated, Nodes}
use gd2fuse.Gate.Handler.{node_handle, FileInfo, g2f_readdir, fill_loop, read_folder}

module _ {W N H A : Type 0} (fs : Operations W N) (nodes : Nodes W N H A)
    (condition : Error → ℕ) where
  -- The buffer after the filler has accepted some entries, if it accepts them.
  abbrev pub accepted : {B : Type 0} → (B → String → A → B × Bool) → W → B → List N → Option B
  accepted filler u buf [] = some buf
  accepted filler u buf (n ∷ ns) =
      let (buf', full) = filler buf (nodes.name n u) (nodes.fill_attr n u) in
      let rest = accepted filler u buf' ns in if full then none else rest

  module _ {B : Type 0} (filler : B → String → A → B × Bool) where
    fill_loop-append :
        (u : W) (xs ys : List N) (buf buf' : B)
        → accepted filler u buf xs ≡ some buf'
        → fill_loop fs nodes condition filler buf (xs ++ ys) u
          ≡ fill_loop fs nodes condition filler buf' ys u
    unfolding fill_loop
    fill_loop-append u [] ys buf buf' e = ground arith
    fill_loop-append u (n ∷ xs) ys buf buf' e =
        ground (
          arith,
          fill_loop-append u xs ys (filler buf (nodes.name n u) (nodes.fill_attr n u)).0 buf',
        )

    -- readdir of a directory whose entries the filler all accepts answers 0, with the buffer that the
    -- filler makes of them in their order.
    pub readdir_complete :
        (n : N) (xs : List N) (fi : FileInfo N H) (buf last : B) (s u : W)
        → fi.fh ≡ node_handle n
        → nodes.is_folder n s ≡ true
        → nodes.children n s ≡ ok (some xs) u
        → accepted filler u buf xs ≡ some last
        → g2f_readdir fs nodes condition filler buf fi s ≡ ok (pos 0, last) u
    unfolding g2f_readdir read_folder fill_loop
    readdir_complete n xs fi buf last s u handle folder listing fits =
        ground (arith, append-nil xs, fill_loop-append u xs [] buf last fits)

    -- If the filler accepts some entries and finds the buffer full at the next one, readdir answers
    -- -ENOMEM with the buffer of that moment: the entries after it are not passed.
    pub readdir_full :
        (n y : N) (xs ys : List N) (fi : FileInfo N H) (buf last over : B) (s u : W)
        → fi.fh ≡ node_handle n
        → nodes.is_folder n s ≡ true
        → nodes.children n s ≡ ok (some (xs ++ y ∷ ys)) u
        → accepted filler u buf xs ≡ some last
        → filler last (nodes.name y u) (nodes.fill_attr y u) ≡ (over, true)
        → g2f_readdir fs nodes condition filler buf fi s ≡ ok (negated enomem, over) u
    unfolding g2f_readdir read_folder fill_loop
    readdir_full n y xs ys fi buf last over s u handle folder listing fits full =
        ground (arith, fill_loop-append u xs (y ∷ ys) buf last fits)
