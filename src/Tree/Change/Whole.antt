-- ===== src/Tree/Change/Whole.antt =====
-- createNode keeps the tree well formed.
use mathlib.Core.Path.{subst}
use gd2fuse.Base.{
  suc, ◌<◌, String, Bool, ◌≡◌, ◌≢◌, refl, sym, ◌∙◌, Option, none, some, List, [], ◌∷◌, ◌++◌, nat_eq,
  string_eq, arith, All,
}
use gd2fuse.Cache.{Ptr}
use gd2fuse.FilePath.{Elements}
use gd2fuse.Node.{Node}
use gd2fuse.Outcome.{ok}
use gd2fuse.Tree.{Heap, Backend, Fs, put}
use gd2fuse.Tree.Heap.{IsClosed}
use gd2fuse.Tree.Change.{create_entries, create_node}
use gd2fuse.Tree.Change.Create.{
  Accepts, Starts, made, round, round-ok, round-Starts, create_entries-Created,
}
use gd2fuse.Tree.Change.CreateNode.{IsWhole, create-found, create-made, Deepest-Starts}
use gd2fuse.FileSystem.{CreateStatus}
use gd2fuse.Tree.Lookup.{find}
use gd2fuse.Tree.Lookup.Deepest.{Deepest, find-Deepest}

All-map : {P Q : Ptr → Type 0} (ps : List Ptr) → All P ps → ((c : Ptr) → P c → Q c) → All Q ps
All-map [] v f = tt
All-map (c ∷ ps) v f = (f c v.0, All-map ps v.1 f)

All-append : (P : Ptr → Type 0) (ps : List Ptr) (p : Ptr) → All P ps → P p → All P (ps ++ p ∷ [])
All-append P [] p v h = (h, tt)
All-append P (c ∷ ps) p v h = (v.0, All-append P ps p v.1 h)

module _ (h : Heap) (fresh n : Ptr) (m made : Node) (here : h n ≡ some m) where
  -- The heap with a new node `made`, which `n` lists.
  abbrev listed : Heap
  listed = put (put h fresh (some made)) n (some (record m { next = m.next ++ fresh ∷ [] }))

  listed-alive : (c : Ptr) → h c ≢ none → listed c ≢ none
  listed-alive c v = ground (arith, v)

  listed-new : listed fresh ≢ none
  listed-new = ground arith

  -- What a node of the new heap is.
  data Origin (p : Ptr) (k : Node) : Type 0 where
    parent : p ≡ n → k ≡ record m { next = m.next ++ fresh ∷ [] } → Origin p k
    new : p ≡ fresh → k ≡ made → Origin p k
    old : h p ≡ some k → Origin p k

  origin : (p : Ptr) (k : Node) → listed p ≡ some k → Origin p k
  origin p k e = elim (nat_eq.dec p n) [
    | yes same ↦ parent same (ground arith)
    | no other ↦ elim (nat_eq.dec p fresh) [
      | yes same ↦ new same (ground (arith, other))
      | no others ↦ old (ground (arith, other, others))
    ]
  ]

  listed-IsClosed : IsClosed h → made.next ≡ [] → IsClosed listed
  listed-IsClosed closed bare p k e = elim (origin p k e) [
    | parent same is_parent ↦ rw is_parent (
        All-append (λ c. listed c ≢ none) m.next fresh
          (All-map m.next (closed n m here) listed-alive) listed-new)
    | new same is_new ↦ rw (is_new, bare) tt
    | old there ↦ All-map k.next (closed p k there) listed-alive
  ]

  -- Each node and each child stands below an address.
  abbrev Below : Heap → Ptr → Type 0
  Below g f = (p : Ptr) (k : Node) → g p ≡ some k → (p < f) × All (λ c. c < f) k.next

  listed-Below : Below h fresh → made.next ≡ [] → Below listed (suc fresh)
  listed-Below bounded bare p k e = elim (origin p k e) [
    | parent same is_parent ↦
        let b = bounded n m here in
        (
          omega (arith, same, b.0),
          rw is_parent (
              All-append (λ c. c < suc fresh) m.next fresh
                (All-map m.next b.1 (λ c l. omega (arith, l))) (omega arith)),
        )
    | new same is_new ↦ (omega (arith, same), rw (is_new, bare) tt)
    | old there ↦
        let b = bounded p k there in
        (omega (arith, b.0), All-map k.next b.1 (λ c l. omega (arith, l)))
  ]

same_state : {S A : Type 0} {x y : A} {s t : S} → ok x s ≡ ok y t → s ≡ t
same_state e = cc

module _ (b : Backend) (a : Accepts b) where
  round-IsWhole :
      (s : Fs b.World) (r n : Ptr) (m : Node) (e : String) (it : Elements) (d : Bool)
      → IsWhole s r
      → s.heap n ≡ some m
      → IsWhole (round b a s n m e it d) r
  round-IsWhole s r n m e it d v here = record {
    rooted = v.rooted;
    alive = listed-alive s.heap s.fresh n m (made b a n m e it d s.world) here r v.alive;
    closed = listed-IsClosed s.heap s.fresh n m (made b a n m e it d s.world) here v.closed refl;
    bounded = listed-Below s.heap s.fresh n m (made b a n m e it d s.world) here v.bounded refl;
  }

  -- The loop keeps the state whole, and adds to the list of its start alone.
  create_entries-IsWhole :
      (it : Elements) (s t : Fs b.World) (r n q : Ptr) (m : Node) (d : Bool)
      → IsWhole s r
      → Starts b a s n m it
      → create_entries b n it d s ≡ ok q t
      → IsWhole t r
  unfolding create_entries
  create_entries-IsWhole [] s t r n q m d v st e = subst (λ u. IsWhole u r) (same_state e) v
  create_entries-IsWhole (x ∷ it) s t r n q m d v st e =
      create_entries-IsWhole it (round b a s n m x it d) t r s.fresh q (made b a n m x it d s.world)
        d (round-IsWhole s r n m x it d v st.here) (round-Starts b a s n m x it d st)
        (sym (round-ok b a s n m x it d st.here st.old) ∙ e)

  module _ (s t : Fs b.World) (r : Ptr) (v : IsWhole s r) (root : String) (names : Elements)
      (d : Bool) (x : CreateStatus × Option Ptr)
      (runs : create_node b (root ∷ names) d s ≡ ok x t) where
    kept :
        (y : Ptr × Elements) (c : Option Node)
        → s.heap y.0 ≡ c
        → c ≢ none
        → find r names s ≡ ok y s
        → Deepest s.heap r names y
        → IsWhole t r
    kept y none there live finds deep = absurd (live refl)
    kept (n, []) (some m) there live finds deep =
        subst (λ u. IsWhole u r)
          (same_state (sym (create-found b a s r v root names n d finds) ∙ runs)) v
    kept (n, e ∷ rest) (some m) there live finds deep =
        let start = Deepest-Starts b a s r v names n m (e ∷ rest) there deep in
        let (q, u, makes, _) = create_entries-Created b a (e ∷ rest) s n m d start in
        subst (λ w. IsWhole w r)
          (same_state (sym (create-made b a s r v root names n q e rest d u finds makes) ∙ runs))
          (create_entries-IsWhole (e ∷ rest) s u r n q m d v start makes)

    -- With a cloud that accepts new entries under the names asked for, `createNode` keeps the state
    -- whole: the root is there, child lists name nodes that are there, and every node and every child
    -- stands below the next free address.
    pub create_node-IsWhole : IsWhole t r
    create_node-IsWhole =
        let (y, finds, deep) = find-Deepest s v.closed r names v.alive in
        kept y (s.heap y.0) refl deep.allocated finds deep
