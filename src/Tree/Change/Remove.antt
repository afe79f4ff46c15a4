-- ===== src/Tree/Change/Remove.antt =====
-- What removing an entry without children does to the tree, the cache and the cloud.
use mathlib.Core.Path.{subst}
use gd2fuse.Base.{
  ℕ, suc, Bool, true, false, ◌≡◌, ◌≢◌, refl, sym, ◌⊎◌, inl, inr, none, some, [], nat_eq, arith,
}
use gd2fuse.Cache.{Ptr, slot_node_removed}
use gd2fuse.Node.{Node, is_folder}
use gd2fuse.Outcome.{Error, ok, threw, each}
use gd2fuse.Tree.{Backend, Fs, done, failed, put}
use gd2fuse.Tree.Memory.{load-ok, store-ok, free-ok}
use gd2fuse.Tree.Lookup.{clear_next, destroy}
use gd2fuse.Tree.Change.{
  contains, remove_ptr, notify_removed, delete_content, remove_entry, remove_all, remove_one,
}

pub notify_removed-ok :
    {W : Type 0} (p : Ptr) (s : Fs W) {n : Node}
    → s.heap p ≡ some n
    → notify_removed p s ≡ ok tt (record s { cache = slot_node_removed p n.id s.cache })
unfolding notify_removed
notify_removed-ok p s here = rw (load-ok p s here)

-- An entry without children: `this` lists `p`, the two are different nodes, and an address is free.
pub record IsLeaf {W : Type 0} (s : Fs W) (this p : Ptr) (t n : Node) : Type 0 where
  pub parent : s.heap this ≡ some t
  pub here : s.heap p ≡ some n
  pub no_children : n.next ≡ []
  pub listed : contains t.next p ≡ true
  pub apart : p ≢ this
  pub fuel : ℕ
  pub allocated : s.fresh ≡ suc fuel

module _ (b : Backend) (s : Fs b.World) (this p : Ptr) (t n : Node) (v : IsLeaf s this p t n) where
  -- Clearing a list of children that is empty leaves the node as it was.
  abbrev cleared : Fs b.World
  cleared = record s { heap = put s.heap p (some (record n { next = [] })) }

  clear_next-leaf : clear_next p s ≡ ok tt cleared
  unfolding clear_next each
  clear_next-leaf =
      rw (load-ok p s v.here, v.no_children, load-ok p s v.here) (store-ok p s v.here _)

  remove_all-suc : (k : ℕ) → remove_all b (suc k) p s ≡ ok tt cleared
  unfolding remove_all each
  remove_all-suc k = rw (load-ok p s v.here, v.no_children) clear_next-leaf

  remove_all-leaf : remove_all b s.fresh p s ≡ ok tt cleared
  remove_all-leaf =
      subst (λ f. remove_all b f p s ≡ ok tt cleared) (sym v.allocated) (remove_all-suc v.fuel)

  abbrev bare : Node
  bare = record n { next = [] }

  cleared-here : cleared.heap p ≡ some bare
  cleared-here = ground arith

  -- `delete p`, of a node without children
  destroy-leaf :
      (u : Fs b.World) (k : ℕ)
      → u.heap p ≡ some bare
      → destroy (suc k) p u ≡ ok tt (record u { heap = put u.heap p none })
  unfolding destroy each
  destroy-leaf u k here = rw (load-ok p u here) (free-ok p u here)

  destroy-fresh :
      (u : Fs b.World)
      → u.heap p ≡ some bare
      → destroy s.fresh p u ≡ ok tt (record u { heap = put u.heap p none })
  destroy-fresh u here =
      subst (λ f. destroy f p u ≡ ok tt (record u { heap = put u.heap p none })) (sym v.allocated)
        (destroy-leaf u v.fuel here)

  -- the state after the entry is gone from the cloud, with the world `w`
  abbrev pub removed : b.World → Fs b.World
  removed w = record s {
    heap =
        put (put (put s.heap p (some bare)) p none) this
          (some (record t { next = remove_ptr p t.next }));
    cache = slot_node_removed p n.id s.cache;
    world = w;
  }

  -- If the cloud refuses to remove the entry, the call fails with the cloud's error; the tree
  -- and the cache are as before.
  remove_entry-failed :
      (e : Error) (w : b.World)
      → b.remove n.id s.world ≡ failed e w
      → remove_entry b (remove_all b s.fresh) p s ≡ threw e (record cleared { world = w })
  unfolding remove_entry
  remove_entry-failed e w refused = rw (remove_all-leaf, load-ok p cleared cleared-here, refused)

  remove_entry-file :
      (w w' : b.World) (was : Bool)
      → b.remove n.id s.world ≡ done tt w
      → (is_folder n ≡ true) × (w' ≡ w)
        ⊎ (is_folder n ≡ false) × (b.content_delete n.id w ≡ done was w')
      → remove_entry b (remove_all b s.fresh) p s
        ≡ ok tt (record cleared { cache = slot_node_removed p n.id s.cache; world = w' })
  unfolding remove_entry delete_content
  remove_entry-file w w' was accepted (inl (folder, same)) =
      rw (remove_all-leaf, load-ok p cleared cleared-here, accepted, folder)
        (rw same (notify_removed-ok p (record cleared { world = w }) cleared-here))
  remove_entry-file w w' was accepted (inr (file, gone)) =
      rw (remove_all-leaf, load-ok p cleared cleared-here, accepted, file, gone)
        (notify_removed-ok p (record cleared { world = w' }) cleared-here)

  parent-kept : put cleared.heap p none this ≡ some t
  parent-kept = ground (arith, v.parent, v.apart)

  unchanged : (q : Ptr) → cleared.heap q ≡ s.heap q
  unchanged q = ground (arith, v.here, v.no_children)

  -- Removing an entry without children, when the cloud removes it and (for a file) the local content
  -- is deleted: the node is freed, its parent lists it no longer and is else unchanged, every other
  -- node is as it was, and the cache has dropped the node.
  pub remove_one-leaf :
      (w w' : b.World) (was : Bool)
      → b.remove n.id s.world ≡ done tt w
      → (is_folder n ≡ true) × (w' ≡ w)
        ⊎ (is_folder n ≡ false) × (b.content_delete n.id w ≡ done was w')
      → remove_one b this p s ≡ ok tt (removed w')
  unfolding remove_one
  remove_one-leaf w w' was accepted content =
      let after : Fs b.World = record cleared {
        cache = slot_node_removed p n.id s.cache;
        world = w';
      } in
      rw
        (
          load-ok this s v.parent,
          v.listed,
          remove_entry-file w w' was accepted content,
          destroy-fresh after cleared-here,
          load-ok this (record after { heap = put after.heap p none }) parent-kept,
        )
        (store-ok this (record after { heap = put after.heap p none }) parent-kept _)

  -- If the cloud refuses to remove an entry without children, the call throws the cloud's error, and
  -- no node, no list of children and no entry of the cache has changed.
  pub remove_one-failed :
      (e : Error) (w : b.World)
      → b.remove n.id s.world ≡ failed e w
      → (s' : Fs b.World) × (remove_one b this p s ≡ threw e s')
        × (s'.cache ≡ s.cache)
        × ((q : Ptr) → s'.heap q ≡ s.heap q)
  unfolding remove_one
  remove_one-failed e w refused = (
    record cleared { world = w },
    rw (load-ok this s v.parent, v.listed, remove_entry-failed e w refused),
    refl,
    unchanged,
  )
