-- ===== src/Tree/Lookup/Fill.antt =====
-- fillDir of a directory that is not filled.
use gd2fuse.Base.{
  suc, ◌+◌, ◌<◌, String, true, false, ◌≡◌, ◌≢◌, refl, ◌∙◌, ap, Option, some, List, [], ◌∷◌, ◌++◌,
  nat_eq, arith, length, All,
}
use mathlib.Core.List.{append_assoc, append-nil}
use gd2fuse.Cache.{Ptr}
use gd2fuse.Node.{Node, Meta, new_node, is_folder, set_meta}
use gd2fuse.Outcome.{ok, each}
use gd2fuse.Tree.{Heap, Backend, Fs, done, alloc, put}
use gd2fuse.Tree.Memory.{load-ok, store-ok, add_next-ok}
use gd2fuse.Tree.Lookup.{fill_entry, forget_children, fill_folder, fill_dir}

-- The new entries stand at consecutive addresses.
abbrev pub addresses : Ptr → List String → List Ptr
addresses f [] = []
addresses f (_ ∷ ids) = f ∷ addresses (suc f) ids

-- The node of a child whose description is `m`.
abbrev pub entry : Ptr → String → Meta → Node
entry dir id m = set_meta m (record (new_node (some dir)) { id = id })

module _ (dir : Ptr) (metas : String → Meta) where
  abbrev pub Holds : Heap → Ptr → List String → Type 0
  Holds h f [] = Unit
  Holds h f (id ∷ ids) = (h f ≡ some (entry dir id (metas id))) × Holds h (suc f) ids

  -- `t` is `s` with the children for `ids` appended to those of `dir`, whose node is `n`.
  pub record Filled {W : Type 0} (s t : Fs W) (n : Node) (ids : List String) : Type 0 where
    pub parent : t.heap dir ≡ some (record n { next = n.next ++ addresses s.fresh ids })
    pub entries : Holds t.heap s.fresh ids
    pub others : (p : Ptr) → p < s.fresh → p ≢ dir → t.heap p ≡ s.heap p
    pub fresh : t.fresh ≡ s.fresh + length ids
    pub cache : t.cache ≡ s.cache
    pub root : t.root ≡ s.root
    pub world : t.world ≡ s.world

  module _ (b : Backend) where
    fill_entry_lem :
        (s : Fs b.World) (n : Node) (id : String)
        → s.heap dir ≡ some n
        → dir < s.fresh
        → b.fetch_meta id s.world ≡ done (metas id) s.world
        → (t : Fs b.World) × (fill_entry b dir id s ≡ ok tt t) × Filled s t n (id ∷ [])
    unfolding fill_entry alloc
    fill_entry_lem s n id here old fetched = (
      record s {
        heap =
            put (put s.heap s.fresh (some (entry dir id (metas id)))) dir
              (some (record n { next = n.next ++ s.fresh ∷ [] }));
        fresh = suc s.fresh;
      },
      rw fetched (
          add_next-ok dir
            (record s {
              heap = put s.heap s.fresh (some (entry dir id (metas id)));
              fresh = suc s.fresh;
            })
            (ground arith) s.fresh),
      record {
        parent = ground arith;
        entries = ground arith;
        others = λ p lt ne. ground arith;
        fresh = omega arith;
        cache = refl;
        root = refl;
        world = refl;
      },
    )

    Filled-append :
        (s t u : Fs b.World) (n : Node) (id : String) (ids : List String)
        → dir < s.fresh
        → Filled s t n (id ∷ [])
        → Filled t u (record n { next = n.next ++ s.fresh ∷ [] }) ids
        → Filled s u n (id ∷ ids)
    Filled-append s t u n id ids old v w =
        let next_fresh : t.fresh ≡ suc s.fresh = omega (arith, v.fresh) in
        record {
          parent =
              w.parent
              ∙ ap (λ f. some (record n { next = (n.next ++ s.fresh ∷ []) ++ addresses f ids }))
                  next_fresh
              ∙ ap (λ l. some (record n { next = l })) (append_assoc n.next (s.fresh ∷ []) _);
          entries = (
            w.others s.fresh (omega (arith, v.fresh)) (omega arith) ∙ v.entries.0,
            rw next_fresh at w.entries,
          );
          others = λ p lt ne. w.others p (omega (arith, v.fresh)) ne ∙ v.others p lt ne;
          fresh = omega (arith, v.fresh, w.fresh);
          cache = w.cache ∙ v.cache;
          root = w.root ∙ v.root;
          world = w.world ∙ v.world;
        }

    -- The loop of fillDir over the ids.
    entries-Filled :
        (ids : List String) (s : Fs b.World) (n : Node)
        → s.heap dir ≡ some n
        → dir < s.fresh
        → All (λ id. b.fetch_meta id s.world ≡ done (metas id) s.world) ids
        → (t : Fs b.World) × (each (fill_entry b dir) ids s ≡ ok tt t) × Filled s t n ids
    unfolding each
    entries-Filled [] s n here old fetched = (
      s,
      refl,
      record {
        parent = rw append-nil here;
        entries = tt;
        others = λ p lt ne. refl;
        fresh = omega arith;
        cache = refl;
        root = refl;
        world = refl;
      },
    )
    entries-Filled (id ∷ ids) s n here old fetched =
        let (t, first, v) = fill_entry_lem s n id here old fetched.0 in
        let (u, rest, w) =
          entries-Filled ids t _ v.parent (omega (arith, v.fresh)) (rw v.world fetched.1) in
        (u, rw first rest, Filled-append s t u n id ids old v w)

  Holds-put :
      (h : Heap) (f : Ptr) (c : Option Node) (ids : List String)
      → dir < f
      → Holds h f ids
      → Holds (put h dir c) f ids
  Holds-put h f c [] lt v = tt
  Holds-put h f c (id ∷ ids) lt v =
      (ground (arith, v.0), Holds-put h (suc f) c ids (omega arith) v.1)

  -- What `fillDir` leaves behind: the old children, then one for each id, as the cloud describes it.
  pub record Listed {W : Type 0} (s t : Fs W) (n : Node) (ids : List String) : Type 0 where
    pub parent :
        t.heap dir ≡ some (record n { next = n.next ++ addresses s.fresh ids; dir_filled = true })
    pub entries : Holds t.heap s.fresh ids
    pub others : (p : Ptr) → p < s.fresh → p ≢ dir → t.heap p ≡ s.heap p
    pub cache : t.cache ≡ s.cache
    pub root : t.root ≡ s.root

  module _ (b : Backend) (s : Fs b.World) (n : Node) (ids : List String) where
    fill_folder-Listed :
        s.heap dir ≡ some n
        → n.dir_filled ≡ false
        → dir < s.fresh
        → b.fetch_children n.id s.world ≡ done ids s.world
        → All (λ id. b.fetch_meta id s.world ≡ done (metas id) s.world) ids
        → (t : Fs b.World) × (fill_folder b dir n s ≡ ok tt t) × Listed s t n ids
    unfolding fill_folder
    fill_folder-Listed here unfilled old listed fetched =
        let (t, runs, v) = entries-Filled b ids s n here old fetched in
        let m : Node = record n { next = n.next ++ addresses s.fresh ids } in
        (
          record t { heap = put t.heap dir (some (record m { dir_filled = true })) },
          rw (unfilled, forget_children)
              (rw (listed, runs, load-ok dir t v.parent)
                (store-ok dir t v.parent (record m { dir_filled = true }))),
          record {
            parent = ground arith;
            entries = Holds-put t.heap s.fresh _ ids old v.entries;
            others = λ p lt ne. ground (arith, v.others p lt ne);
            cache = v.cache;
            root = v.root;
          },
        )

    -- Filling a directory that is not filled, when the cloud lists `ids` and describes each of them, keeps
    -- the children that it has, appends one node for each id in the cloud's order, with that
    -- description and the directory as its parent, marks the directory filled, and changes no node
    -- but these, nor the cache.
    pub fill_dir-Listed :
        s.heap dir ≡ some n
        → is_folder n ≡ true
        → n.dir_filled ≡ false
        → dir < s.fresh
        → b.fetch_children n.id s.world ≡ done ids s.world
        → All (λ id. b.fetch_meta id s.world ≡ done (metas id) s.world) ids
        → (t : Fs b.World) × (fill_dir b dir s ≡ ok tt t) × Listed s t n ids
    unfolding fill_dir
    fill_dir-Listed here folder unfilled old listed fetched =
        let (t, runs, v) = fill_folder-Listed here unfilled old listed fetched in
        (t, rw (load-ok dir s here, folder) runs, v)
