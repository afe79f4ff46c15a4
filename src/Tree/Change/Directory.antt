-- ===== src/Tree/Change/Directory.antt =====
-- createNode, asked for a directory, makes one.
use mathlib.Core.Path.{subst}
use gd2fuse.Base.{String, true, ◌≡◌, ◌≢◌, refl, sym, ◌∙◌, Option, none, some, [], ◌∷◌, nat_eq}
use gd2fuse.Cache.{Ptr}
use gd2fuse.FilePath.{Elements}
use gd2fuse.FileSystem.{CreateStatus, create_success, create_already_exists}
use gd2fuse.Node.{Node, is_directory, is_folder}
use gd2fuse.Outcome.{Outcome, ok}
use gd2fuse.Tree.{Backend, Fs}
use gd2fuse.Tree.Change.{create_entries, create_node}
use gd2fuse.Tree.Change.Create.{
  Accepts, Starts, made, round, round-ok, round-Starts, create_entries-Created,
}
use gd2fuse.Tree.Change.CreateNode.{IsWhole, create-found, create-made, Deepest-Starts}
use gd2fuse.Tree.Lookup.{find}
use gd2fuse.Tree.Lookup.Deepest.{Deepest, find-Deepest}

-- The cloud describes an entry that is asked for as a directory as one.
abbrev pub TellsFolders : (b : Backend) → Accepts b → Type 0
TellsFolders b a =
    (e id : String) (w : b.World) → is_directory (a.reply e id true w).file_type ≡ true

module _ (b : Backend) (a : Accepts b) (tells : TellsFolders b a) where
  -- The node at an address is a directory.
  abbrev pub IsDirectory : Fs b.World → Ptr → Type 0
  IsDirectory t q = (n : Node) × (t.heap q ≡ some n) × (is_folder n ≡ true)

  same_result : {x y : Ptr} {s t : Fs b.World} → ok x s ≡ ok y t → (x ≡ y) × (s ≡ t)
  same_result e = (cc, cc)

  pub create_entries-IsDirectory :
      (e : String) (it : Elements) (s t : Fs b.World) (n q : Ptr) (m : Node)
      → Starts b a s n m (e ∷ it)
      → create_entries b n (e ∷ it) true s ≡ ok q t
      → IsDirectory t q
  unfolding create_entries
  create_entries-IsDirectory e [] s t n q m st runs =
      let r = same_result (sym (round-ok b a s n m e [] true st.here st.old) ∙ runs) in
      (
        made b a n m e [] true s.world,
        subst (λ u. u.heap q ≡ some (made b a n m e [] true s.world)) r.1
            (subst (λ p. (round b a s n m e [] true).heap p ≡ some (made b a n m e [] true s.world))
              r.0 (round-Starts b a s n m e [] true st).here),
        tells e m.id s.world,
      )
  create_entries-IsDirectory e (x ∷ it) s t n q m st runs =
      create_entries-IsDirectory x it (round b a s n m e (x ∷ it) true) t s.fresh q
        (made b a n m e (x ∷ it) true s.world) (round-Starts b a s n m e (x ∷ it) true st)
        (sym (round-ok b a s n m e (x ∷ it) true st.here st.old) ∙ runs)

  module _ (s t : Fs b.World) (r q : Ptr) (v : IsWhole s r) (root : String) (names : Elements)
      (runs : create_node b (root ∷ names) true s ≡ ok (create_success, some q) t) where
    abbrev Result : Type 0
    Result = Outcome (Fs b.World) (CreateStatus × Option Ptr)

    same_node :
        {p : Ptr} {u : Fs b.World}
        → ◌≡◌ {A = Result} (ok (create_success, some p) u) (ok (create_success, some q) t)
        → ok p u ≡ ok q t
    same_node e = cc

    last :
        (y : Ptr × Elements) (c : Option Node)
        → s.heap y.0 ≡ c
        → c ≢ none
        → find r names s ≡ ok y s
        → Deepest s.heap r names y
        → IsDirectory t q
    last y none there live finds deep = absurd (live refl)
    last (n, []) (some m) there live finds deep =
        absurd (differ (sym (create-found b a s r v root names n true finds) ∙ runs))
      where
        differ :
            ◌≢◌ {A = Result} (ok (create_already_exists, none) s) (ok (create_success, some q) t)
        differ e = cc
    last (n, e ∷ rest) (some m) there live finds deep =
        let start = Deepest-Starts b a s r v names n m (e ∷ rest) there deep in
        let (p, u, makes, _) = create_entries-Created b a (e ∷ rest) s n m true start in
        create_entries-IsDirectory e rest s t n q m start (
          makes
          ∙ same_node (sym (create-made b a s r v root names n p e rest true u finds makes) ∙ runs))

    -- With a cloud that accepts new entries under the names asked for, and describes those that are
    -- asked for as directories so, `createNode` for a directory makes one when it succeeds.
    pub create_node-IsDirectory : IsDirectory t q
    create_node-IsDirectory =
        let (y, finds, deep) = find-Deepest s v.closed r names v.alive in
        last y (s.heap y.0) refl deep.allocated finds deep
