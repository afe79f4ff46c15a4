-- ===== src/Tree/Lookup/Get.antt =====
-- AbstractFileSystem::get on a tree that is already there.
use gd2fuse.Base.{
  String, Bool-cases, true, false, ◌≡◌, ◌≢◌, refl, sym, ◌∙◌, ap, Option, none, some, Option-cases,
  [], ◌∷◌, ◌++◌, string_eq, list_eq, arith, ◌⊎◌, inl, inr,
}
use gd2fuse.Cache.{Ptr, find_by_path, add}
use gd2fuse.FilePath.{Elements, root_path}
use gd2fuse.Node.{Node, is_folder}
use gd2fuse.Outcome.{ok}
use gd2fuse.Tree.{Heap, Backend, Fs, load}
use gd2fuse.Tree.Heap.{IsClosed, child_named, resolve}
use gd2fuse.Tree.Lookup.{find, get_root, get, descend}
use gd2fuse.Tree.Lookup.Deepest.{Stops, Deepest, find-Deepest}

pub resolve-append :
    (h : Heap) (p q : Ptr) (xs ys : Elements)
    → resolve h p xs ≡ some q
    → resolve h p (xs ++ ys) ≡ resolve h q ys
unfolding resolve
resolve-append h p q [] ys e = ground arith
resolve-append h p q (x ∷ xs) ys e = elim (Option-cases (h p)) [
  | inl gone ↦ ground arith
  | inr (n, found) ↦ elim (Option-cases (child_named h n.next x)) [
    | inl missing ↦ ground arith
    | inr (r, named) ↦ ground (arith, resolve-append h r q xs ys)
  ]
]

Stops-resolve :
    (h : Heap) (q : Ptr) (e : String) (it : Elements)
    → Stops h q (e ∷ it)
    → resolve h q (e ∷ it) ≡ none
unfolding resolve
Stops-resolve h q e it stops = elim (Option-cases (h q)) [
  | inl gone ↦ ground arith
  | inr (n, found) ↦ ground (arith, stops n)
]

-- The deepest node is the named one, or the names lead nowhere.
pub Deepest-resolve :
    {h : Heap} {p : Ptr} {it : Elements} {r : Ptr × Elements}
    → Deepest h p it r
    → ((r.1 ≡ []) × (resolve h p it ≡ some r.0)) ⊎ ((r.1 ≢ []) × (resolve h p it ≡ none))
unfolding resolve
Deepest-resolve {h} {p} {it} {r = (q, [])} d =
    inl (refl, ap (resolve h p) (sym d.split) ∙ resolve-append h p q d.taken [] d.reached)
Deepest-resolve {h} {p} {it} {r = (q, e ∷ rest)} d = inr (
  λ w. cc,
  ap (resolve h p) (sym d.split)
      ∙ resolve-append h p q d.taken (e ∷ rest) d.reached
      ∙ Stops-resolve h q e rest d.stops,
)

-- A state whose root is there, and a path other than the root's that the cache does not hold.
pub record Misses {W : Type 0} (s : Fs W) (r : Ptr) (path : Elements) : Type 0 where
  pub closed : IsClosed s.heap
  pub rooted : s.root ≡ some r
  pub alive : s.heap r ≢ none
  pub not_root : path ≢ root_path
  pub uncached : find_by_path path s.cache ≡ none

module _ (b : Backend) (s : Fs b.World) (r : Ptr) where
  get-found :
      (e : String) (names : Elements) (q : Ptr) (n : Node)
      → Misses s r (e ∷ names)
      → find r names s ≡ ok (q, []) s
      → s.heap q ≡ some n
      → get b (e ∷ names) s ≡ ok (some q) (record s { cache = add (e ∷ names) n.id q s.cache })
  unfolding get get_root load
  get-found e names q n v runs there = ground (arith, v.rooted, v.not_root, v.uncached)

  get-absent :
      (e : String) (names : Elements) (q : Ptr) (n : Node) (f : String) (rest : Elements)
      → Misses s r (e ∷ names)
      → find r names s ≡ ok (q, f ∷ rest) s
      → s.heap q ≡ some n
      → (n.dir_filled ≡ true) ⊎ (is_folder n ≡ false)
      → get b (e ∷ names) s ≡ ok none s
  unfolding get get_root load descend
  get-absent e names q n f rest v runs there (inl filled) =
      ground (arith, v.rooted, v.not_root, v.uncached)
  get-absent e names q n f rest v runs there (inr file) =
      ground (arith, v.rooted, v.not_root, v.uncached)

  -- Every directory that is allocated is filled.
  abbrev pub AllFilled : Type 0
  AllFilled = (p : Ptr) (n : Node) → s.heap p ≡ some n → is_folder n ≡ true → n.dir_filled ≡ true

  filled-or_file :
      AllFilled
      → (p : Ptr) (n : Node) → s.heap p ≡ some n
      → (n.dir_filled ≡ true) ⊎ (is_folder n ≡ false)
  filled-or_file filled p n there = elim (Bool-cases (is_folder n)) [
    | inl folder ↦ inl (filled p n there folder)
    | inr file ↦ inr file
  ]

  resolved-finds :
      (names : Elements) (q : Ptr)
      → IsClosed s.heap
      → s.heap r ≢ none
      → resolve s.heap r names ≡ some q
      → find r names s ≡ ok (q, []) s
  resolved-finds names q closed alive named =
      let (x, runs, d) = find-Deepest s closed r names alive in runs ∙ ap (λ y. ok y s) (only x d)
    where
      only : (x : Ptr × Elements) → Deepest s.heap r names x → x ≡ (q, [])
      only x d = elim (Deepest-resolve d) [
        | inl (none_left, reached) ↦ ground arith
        | inr (some_left, nowhere) ↦ cc
      ]

  -- For a path that the cache does not hold, whose names lead through the tree to a node, `get`
  -- answers that node, caches it under the path with its id, and changes nothing else; the cloud is
  -- not asked.
  pub get-resolved :
      (e : String) (names : Elements) (q : Ptr) (n : Node)
      → Misses s r (e ∷ names)
      → resolve s.heap r names ≡ some q
      → s.heap q ≡ some n
      → get b (e ∷ names) s ≡ ok (some q) (record s { cache = add (e ∷ names) n.id q s.cache })
  get-resolved e names q n v named there =
      get-found e names q n v (resolved-finds names q v.closed v.alive named) there

  -- For a path that the cache does not hold, and whose names lead nowhere, `get` answers that there
  -- is no node, without asking the cloud and without any change, if every allocated directory is
  -- filled.
  pub get-unresolved :
      (e : String) (names : Elements)
      → Misses s r (e ∷ names)
      → AllFilled
      → resolve s.heap r names ≡ none
      → get b (e ∷ names) s ≡ ok none s
  get-unresolved e names v filled nowhere =
      let (x, runs, d) = find-Deepest s v.closed r names v.alive in absent x d runs
    where
      at :
          (x : Ptr × Elements) (c : Option Node)
          → s.heap x.0 ≡ c
          → c ≢ none
          → Deepest s.heap r names x
          → find r names s ≡ ok x s
          → get b (e ∷ names) s ≡ ok none s
      at x none there live d runs = absurd (live refl)
      at (q, []) (some n) there live d runs = elim (Deepest-resolve d) [
        | inl (none_left, reached) ↦ cc
        | inr (some_left, _) ↦ absurd (some_left refl)
      ]
      at (q, f ∷ rest) (some n) there live d runs =
          get-absent e names q n f rest v runs there (filled-or_file filled q n there)

      absent :
          (x : Ptr × Elements)
          → Deepest s.heap r names x
          → find r names s ≡ ok x s
          → get b (e ∷ names) s ≡ ok none s
      absent x d runs = at x (s.heap x.0) refl d.allocated d runs
