-- ===== src/Tree/Change/Create.antt =====
-- The loop of createNode.
use mathlib.Core.List.{append-nil}
use mathlib.Core.Option
use gd2fuse.Base.{
  suc, ◌+◌, ◌<◌, String, Bool, ◌≡◌, ◌≢◌, refl, ◌∙◌, ap, Option, none, some, List, [], ◌∷◌, ◌++◌,
  nat_eq, string_eq, arith, length, All,
}
use gd2fuse.Cache.{Ptr}
use gd2fuse.FilePath.{Elements}
use gd2fuse.Node.{Node, Meta, new_node, is_folder, set_meta}
use gd2fuse.Outcome.{ok}
use gd2fuse.Tree.{Heap, Backend, Fs, done, alloc, put}
use gd2fuse.Tree.Heap.{child_named, resolve, resolve-cons}
use gd2fuse.Tree.Memory.{load-ok, add_next-ok}
use gd2fuse.Tree.Change.{entry_type, create_entries}

abbrev pub name_at : Heap → Ptr → Option String
name_at h p = Option.map (λ (n : Node). n.name) (h p)

child_named-names :
    (g h : Heap) (ps : List Ptr) (e : String)
    → All (λ c. name_at g c ≡ name_at h c) ps
    → child_named g ps e ≡ child_named h ps e
unfolding child_named
child_named-names g h [] e v = refl
child_named-names g h (p ∷ ps) e v = ground (arith, v.0, child_named-names g h ps e v.1)

child_named-append :
    (h : Heap) (ps : List Ptr) (p : Ptr) (e : String)
    → child_named h ps e ≡ none
    → name_at h p ≡ some e
    → child_named h (ps ++ p ∷ []) e ≡ some p
unfolding child_named
child_named-append h [] p e missing named = ground arith
child_named-append h (q ∷ ps) p e missing named = ground (arith, child_named-append h ps p e)

All-below :
    {f : Ptr} (P : Ptr → Type 0) (ps : List Ptr)
    → All (λ c. c < f) ps
    → ((c : Ptr) → c < f → P c)
    → All P ps
All-below P [] v each = tt
All-below P (c ∷ ps) v each = (each c v.0, All-below P ps v.1 each)

-- `t` is `s` with the nodes for the names `it` below `n`, whose node is `m`.
pub record Created {W : Type 0} (s t : Fs W) (n : Ptr) (m : Node) (it : Elements) (q : Ptr)
    : Type 0 where
  pub reached : resolve t.heap n it ≡ some q
  pub names : (p : Ptr) → p < s.fresh → name_at t.heap p ≡ name_at s.heap p
  pub others : (p : Ptr) → p < s.fresh → p ≢ n → t.heap p ≡ s.heap p
  pub grown : (more : List Ptr) × (t.heap n ≡ some (record m { next = m.next ++ more }))
  pub fresh : t.fresh ≡ s.fresh + length it
  pub cache : t.cache ≡ s.cache
  pub root : t.root ≡ s.root

-- What is assumed of the cloud: it accepts a new entry, and describes it under the name asked for.
pub record Accepts (b : Backend) : Type 0 where
  pub reply : String → String → Bool → b.World → Meta
  pub after : String → String → Bool → b.World → b.World
  pub accepts :
      (e id : String) (folder : Bool) (w : b.World)
      → b.create_meta e id folder w ≡ done (reply e id folder w) (after e id folder w)
  pub named : (e id : String) (folder : Bool) (w : b.World) → (reply e id folder w).name ≡ e

module _ (b : Backend) (a : Accepts b) where
  -- The node that is made for the name `e` below `n`, whose node is `m`.
  abbrev pub made : Ptr → Node → String → Elements → Bool → b.World → Node
  made n m e it is_directory w =
      let node = record (new_node (some n)) { name = e; file_type = entry_type it is_directory } in
      set_meta (a.reply e m.id (is_folder node) w) node

  -- The state after the first round of the loop.
  abbrev pub round : Fs b.World → Ptr → Node → String → Elements → Bool → Fs b.World
  round s n m e it is_directory = record s {
    heap =
        put (put s.heap s.fresh (some (made n m e it is_directory s.world))) n
          (some (record m { next = m.next ++ s.fresh ∷ [] }));
    fresh = suc s.fresh;
    world =
        a.after e m.id
          (is_folder
            (record (new_node (some n)) { name = e; file_type = entry_type it is_directory }))
          s.world;
  }

  pub round-ok :
      (s : Fs b.World) (n : Ptr) (m : Node) (e : String) (it : Elements) (is_directory : Bool)
      → s.heap n ≡ some m
      → n < s.fresh
      → create_entries b n (e ∷ it) is_directory s
        ≡ create_entries b s.fresh it is_directory (round s n m e it is_directory)
  unfolding create_entries alloc
  round-ok s n m e it is_directory here old =
      rw (load-ok n s here, a.accepts)
        (rw (
          add_next-ok n
            (record s {
              heap = put s.heap s.fresh (some (made n m e it is_directory s.world));
              fresh = suc s.fresh;
              world = (round s n m e it is_directory).world;
            })
            {n = m} (ground arith) s.fresh))

  -- What the loop needs of the node that it starts at.
  pub record Starts (s : Fs b.World) (n : Ptr) (m : Node) (it : Elements) : Type 0 where
    pub here : s.heap n ≡ some m
    pub old : n < s.fresh
    pub children : All (λ c. c < s.fresh) m.next
    pub unnamed :
        (e : String) (rest : Elements) → it ≡ e ∷ rest → child_named s.heap m.next e ≡ none

  pub round-Starts :
      (s : Fs b.World) (n : Ptr) (m : Node) (e : String) (it : Elements) (is_directory : Bool)
      → Starts s n m (e ∷ it)
      → Starts (round s n m e it is_directory) s.fresh (made n m e it is_directory s.world) it
  unfolding child_named
  round-Starts s n m e it is_directory v = record {
    here = ground (arith, v.old);
    old = omega arith;
    children = tt;
    unnamed = λ e rest eq. refl;
  }

  Created-round :
      (s t : Fs b.World) (n : Ptr) (m : Node) (e : String) (it : Elements) (is_directory : Bool)
      (q : Ptr)
      → Starts s n m (e ∷ it)
      → Created (round s n m e it is_directory) t s.fresh (made n m e it is_directory s.world) it q
      → Created s t n m (e ∷ it) q
  Created-round s t n m e it is_directory q v w =
      let parent : t.heap n ≡ some (record m { next = m.next ++ s.fresh ∷ [] }) =
        w.others n (omega (arith, v.old)) (omega (arith, v.old)) ∙ ground arith in
      let names : (p : Ptr) → p < s.fresh → name_at t.heap p ≡ name_at s.heap p =
        λ p lt. w.names p (omega arith) ∙ ground (arith, v.here) in
      record {
        reached =
            resolve-cons t.heap n s.fresh e it parent (
              child_named-append t.heap m.next s.fresh e
                (child_named-names t.heap s.heap m.next e
                    (All-below (λ c. name_at t.heap c ≡ name_at s.heap c) m.next v.children names)
                  ∙ v.unnamed e it refl)
                (w.names s.fresh (omega arith)
                  ∙ ap (Option.map (λ (k : Node). k.name))
                      (round-Starts s n m e it is_directory v).here
                  ∙ ap some (a.named e m.id _ s.world)))
            ∙ w.reached;
        names = names;
        others = λ p lt ne. w.others p (omega arith) (omega arith) ∙ ground arith;
        grown = (s.fresh ∷ [], parent);
        fresh = omega (arith, w.fresh);
        cache = w.cache;
        root = w.root;
      }

  -- The loop of `createNode`, started at a node without a child of the first name, returns a node
  -- that the names lead to from there. Every older node keeps its name, every older node but the
  -- start is as it was, as many nodes are allocated as there are names, and the cache is as before.
  pub create_entries-Created :
      (it : Elements) (s : Fs b.World) (n : Ptr) (m : Node) (is_directory : Bool)
      → Starts s n m it
      → (q : Ptr) × (t : Fs b.World) × (create_entries b n it is_directory s ≡ ok q t)
        × Created s t n m it q
  unfolding create_entries resolve
  create_entries-Created [] s n m is_directory v = (
    n,
    s,
    refl,
    record {
      reached = refl;
      names = λ p lt. refl;
      others = λ p lt ne. refl;
      grown = ([], rw append-nil v.here);
      fresh = omega arith;
      cache = refl;
      root = refl;
    },
  )
  create_entries-Created (e ∷ it) s n m is_directory v =
      let (q, t, runs, w) =
        create_entries-Created it (round s n m e it is_directory) s.fresh
          (made n m e it is_directory s.world) is_directory
          (round-Starts s n m e it is_directory v) in
      (
        q,
        t,
        round-ok s n m e it is_directory v.here v.old ∙ runs,
        Created-round s t n m e it is_directory q v w,
      )
