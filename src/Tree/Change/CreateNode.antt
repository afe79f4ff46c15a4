-- ===== src/Tree/Change/CreateNode.antt =====
-- createNode as a whole.
use mathlib.Core.List.{append-nil}
use gd2fuse.Base.{
  ◌<◌, String, Bool, ◌≡◌, ◌≢◌, refl, sym, ◌∙◌, ap, Option, none, some, Option-cases, List, [], ◌∷◌,
  ◌++◌, nat_eq, string_eq, arith, All, inl, inr,
}
use gd2fuse.Cache.{Ptr}
use gd2fuse.FilePath.{Elements}
use gd2fuse.Node.{Node}
use gd2fuse.Outcome.{ok}
use gd2fuse.Tree.{Heap, Backend, Fs}
use gd2fuse.Tree.Heap.{IsClosed, child_named, resolve}
use gd2fuse.Tree.Lookup.{find, get_root}
use gd2fuse.Tree.Lookup.Deepest.{Deepest, find-Deepest}
use gd2fuse.Tree.Lookup.Get.{Deepest-resolve, resolve-append}
use gd2fuse.FileSystem.{create_success, create_already_exists}
use gd2fuse.Tree.Change.{create_entries, create_node}
use gd2fuse.Tree.Change.Create.{Accepts, Starts, Created, create_entries-Created}

-- `g` has every node of `h` under its name, with more children at the end at most.
abbrev Extends : Heap → Heap → Type 0
Extends h g =
    (p : Ptr) (m : Node)
    → h p ≡ some m
    → (k : Node) × (g p ≡ some k)
      × (k.name ≡ m.name)
      × ((more : List Ptr) × (k.next ≡ m.next ++ more))

child_named-Extends :
    (h g : Heap) (ps more : List Ptr) (e : String) (q : Ptr)
    → Extends h g
    → All (λ c. h c ≢ none) ps
    → child_named h ps e ≡ some q
    → child_named g (ps ++ more) e ≡ some q
unfolding child_named
child_named-Extends h g [] more e q x v named = cc
child_named-Extends h g (p ∷ ps) more e q x v named = elim (Option-cases (h p)) [
  | inl gone ↦ absurd (v.0 gone)
  | inr (m, here) ↦
      let (k, there, name, _) = x p m here in
      ground (arith, child_named-Extends h g ps more e q x v.1)
]

resolve-Extends :
    (h g : Heap) (p q : Ptr) (it : Elements)
    → Extends h g
    → IsClosed h
    → resolve h p it ≡ some q
    → resolve g p it ≡ some q
unfolding resolve
resolve-Extends h g p q [] x closed e = e
resolve-Extends h g p q (n ∷ it) x closed e = elim (Option-cases (h p)) [
  | inl gone ↦ ground arith
  | inr (m, here) ↦ elim (Option-cases (child_named h m.next n)) [
    | inl missing ↦ ground arith
    | inr (c, named) ↦
        let (k, there, _, grown) = x p m here in
        let (more, next) = grown in
        let found : child_named g k.next n ≡ some c =
          rw next (child_named-Extends h g m.next more n c x (closed p m here) named) in
        ground (arith, resolve-Extends h g c q it x closed)
  ]
]

-- Every node and every child stand below the next free address.
abbrev pub IsBounded : {W : Type 0} → Fs W → Type 0
IsBounded s =
    (p : Ptr) (m : Node) → s.heap p ≡ some m → (p < s.fresh) × All (λ c. c < s.fresh) m.next

Created-Extends :
    {W : Type 0} {s t : Fs W} {n : Ptr} {m : Node} {it : Elements} {q : Ptr}
    → IsBounded s
    → s.heap n ≡ some m
    → Created s t n m it q
    → Extends s.heap t.heap
Created-Extends {s} {t} {n} {m} bounded here c p k there = elim (nat_eq.dec p n) [
  | yes same ↦
      let (more, grown) = c.grown in
      (record m { next = m.next ++ more }, ground arith, ground arith, (more, ground arith))
  | no other ↦ (k, c.others p (bounded p k there).0 other ∙ there, refl, ([], rw append-nil))
]

-- A state with a root, whose nodes and children are allocated below the next free address.
pub record IsWhole {W : Type 0} (s : Fs W) (r : Ptr) : Type 0 where
  pub rooted : s.root ≡ some r
  pub alive : s.heap r ≢ none
  pub closed : IsClosed s.heap
  pub bounded : IsBounded s

-- The two outcomes of `createNode` for the names below the root `r`.
pub data Outcomes (b : Backend) (s : Fs b.World) (r : Ptr) (path names : Elements) (d : Bool)
    : Type 0 where
  exists_already :
      (q : Ptr)
      → resolve s.heap r names ≡ some q
      → create_node b path d s ≡ ok (create_already_exists, none) s
      → Outcomes b s r path names d
  makes :
      (q : Ptr) (t : Fs b.World)
      → resolve s.heap r names ≡ none
      → create_node b path d s ≡ ok (create_success, some q) t
      → resolve t.heap r names ≡ some q
      → ((p : Ptr) (xs : Elements) → resolve s.heap r xs ≡ some p → resolve t.heap r xs ≡ some p)
      → t.cache ≡ s.cache
      → Outcomes b s r path names d

module _ (b : Backend) (a : Accepts b) (s : Fs b.World) (r : Ptr) (v : IsWhole s r) where
  pub create-found :
      (root : String) (names : Elements) (q : Ptr) (d : Bool)
      → find r names s ≡ ok (q, []) s
      → create_node b (root ∷ names) d s ≡ ok (create_already_exists, none) s
  unfolding create_node get_root
  create-found root names q d runs = ground (arith, v.rooted)

  pub create-made :
      (root : String) (names : Elements) (n q : Ptr) (e : String) (rest : Elements) (d : Bool)
      (t : Fs b.World)
      → find r names s ≡ ok (n, e ∷ rest) s
      → create_entries b n (e ∷ rest) d s ≡ ok q t
      → create_node b (root ∷ names) d s ≡ ok (create_success, some q) t
  unfolding create_node get_root
  create-made root names n q e rest d t runs made = ground (arith, v.rooted)

  pub Deepest-Starts :
      (names : Elements) (n : Ptr) (m : Node) (it : Elements)
      → s.heap n ≡ some m
      → Deepest s.heap r names (n, it)
      → Starts b a s n m it
  Deepest-Starts names n m [] here d = record {
    here = here;
    old = (v.bounded n m here).0;
    children = (v.bounded n m here).1;
    unnamed = λ e rest eq. cc;
  }
  Deepest-Starts names n m (f ∷ it) here d = record {
    here = here;
    old = (v.bounded n m here).0;
    children = (v.bounded n m here).1;
    unnamed = λ e rest eq. ground (arith, d.stops m here);
  }

  created :
      (root : String) (names : Elements) (n : Ptr) (m : Node) (e : String) (rest : Elements)
      (d : Bool)
      → s.heap n ≡ some m
      → find r names s ≡ ok (n, e ∷ rest) s
      → Deepest s.heap r names (n, e ∷ rest)
      → resolve s.heap r names ≡ none
      → Outcomes b s r (root ∷ names) names d
  created root names n m e rest d here runs deep nowhere =
      let start = Deepest-Starts names n m (e ∷ rest) here deep in
      let (q, t, made, c) = create_entries-Created b a (e ∷ rest) s n m d start in
      let kept : (p : Ptr) (xs : Elements)
          → resolve s.heap r xs ≡ some p
          → resolve t.heap r xs ≡ some p =
        λ p xs named.
          resolve-Extends s.heap t.heap r p xs (Created-Extends v.bounded here c) v.closed named in
      makes q t nowhere (create-made root names n q e rest d t runs made)
        (ap (resolve t.heap r) (sym deep.split)
          ∙ resolve-append t.heap r n deep.taken (e ∷ rest) (kept n deep.taken deep.reached)
          ∙ c.reached)
        kept c.cache

  decide_node :
      (root : String) (names : Elements) (d : Bool) (x : Ptr × Elements) (c : Option Node)
      → s.heap x.0 ≡ c
      → c ≢ none
      → find r names s ≡ ok x s
      → Deepest s.heap r names x
      → Outcomes b s r (root ∷ names) names d
  decide_node root names d x none there live runs deep = absurd (live refl)
  decide_node root names d (q, []) (some m) there live runs deep = elim (Deepest-resolve deep) [
    | inl (_, reached) ↦ exists_already q reached (create-found root names q d runs)
    | inr (some_left, _) ↦ absurd (some_left refl)
  ]
  decide_node root names d (q, e ∷ rest) (some m) there live runs deep =
      elim (Deepest-resolve deep) [
        | inl (none_left, _) ↦ cc
        | inr (_, nowhere) ↦ created root names q m e rest d there runs deep nowhere
      ]

  -- In a whole state, with a cloud that accepts new entries under the names asked for, `createNode`
  -- has two outcomes: if the names after the first element of the path lead to a node, it says that
  -- the entry exists and changes nothing; if not, it succeeds with a node to which the names lead
  -- afterwards, every path that led to a node still leads to it, and the cache is unchanged.
  pub create_node-Outcomes :
      (root : String) (names : Elements) (d : Bool) → Outcomes b s r (root ∷ names) names d
  create_node-Outcomes root names d =
      let (x, runs, deep) = find-Deepest s v.closed r names v.alive in
      decide_node root names d x (s.heap x.0) refl deep.allocated runs deep
