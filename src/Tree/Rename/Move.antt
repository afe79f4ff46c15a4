-- ===== src/Tree/Rename/Move.antt =====
-- What moving an entry to another directory does to the tree, the cloud and the cache.
use gd2fuse.Base.{
  ℕ, ◌+◌, String, true, false, ◌≡◌, ◌≢◌, refl, none, some, [], ◌∷◌, ◌++◌, nat_eq, list_eq,
  string_eq, arith,
}
use gd2fuse.Base.Dict.{lookup}
use gd2fuse.FilePath.{Elements, root_path}
use gd2fuse.Cache.Coherence.{slot_node_removed-others}
use gd2fuse.Tree.Lookup.{get}
use gd2fuse.Cache.{Ptr, find_by_path, slot_node_changed}
use gd2fuse.Node.{Node}
use gd2fuse.Outcome.{ok}
use gd2fuse.Tree.{Heap, Backend, Fs, done, put}
use gd2fuse.Tree.Memory.{load-ok, store-ok}
use gd2fuse.Tree.Change.{
  contains, remove_ptr, field_name, field_parent, detach_node, attach_node, notify_changed,
}
use gd2fuse.Tree.Rename.{rename_fields, cloud_update, set_name, move, parent_id}

module _ {W : Type 0} (this node : Ptr) (s : Fs W) {t n : Node} (apart : node ≢ this)
    (parent : s.heap this ≡ some t) (here : s.heap node ≡ some n) where
  pub detach_node-ok :
      contains t.next node ≡ true
      → detach_node this node s
        ≡ ok true (record s {
          heap =
              put
                (put s.heap node (some (record n { parent = none })))
                this
                (some (record t { next = remove_ptr node t.next }));
        })
  unfolding detach_node
  detach_node-ok listed =
      let u : Fs W = record s { heap = put s.heap node (some (record n { parent = none })) } in
      let kept : u.heap this ≡ some t = ground (arith, apart) in
      rw (
        load-ok this s parent,
        listed,
        load-ok node s here,
        store-ok node s here,
        load-ok this u kept,
        store-ok this u kept,
      )

  pub attach_node-ok :
      contains t.next node ≡ false
      → attach_node this node s
        ≡ ok tt (record s {
          heap =
              put
                (put s.heap node (some (record n { parent = some this })))
                this
                (some (record t { next = t.next ++ node ∷ [] }));
        })
  unfolding attach_node
  attach_node-ok unlisted =
      let u : Fs W = record s { heap = put s.heap node (some (record n { parent = some this })) } in
      let kept : u.heap this ≡ some t = ground (arith, apart) in
      rw
        (
          load-ok this s parent,
          unlisted,
          load-ok node s here,
          store-ok node s here,
          load-ok this u kept,
        )
        (store-ok this u kept _)

-- An entry `p` of the directory `from`, to be moved to the directory `to`, which has no such entry.
pub record Moves {W : Type 0} (s : Fs W) (from to p : Ptr) (a c n : Node) : Type 0 where
  pub source : s.heap from ≡ some a
  pub target : s.heap to ≡ some c
  pub here : s.heap p ≡ some n
  pub listed : contains a.next p ≡ true
  pub unlisted : contains c.next p ≡ false
  pub other : from ≢ to
  pub apart : p ≢ from
  pub apart' : p ≢ to

-- `g` is `h` with the entry moved and renamed.
pub record Moved (h g : Heap) (from to p : Ptr) (a c n : Node) (name : String) : Type 0 where
  pub entry : g p ≡ some (record n { name = name; parent = some to })
  pub left : g from ≡ some (record a { next = remove_ptr p a.next })
  pub joined : g to ≡ some (record c { next = c.next ++ p ∷ [] })
  pub others : (q : Ptr) → q ≢ p → q ≢ from → q ≢ to → g q ≡ h q

set_name-ok :
    (b : Backend) (p : Ptr) (s : Fs b.World) {n : Node} (name : String)
    → s.heap p ≡ some n
    → set_name b p name s
      ≡ ok tt (record s { heap = put s.heap p (some (record n { name = name })) })
unfolding set_name
set_name-ok b p s name here = rw (load-ok p s here) (store-ok p s here _)

parent_id-ok :
    {W : Type 0} (p : Ptr) (s : Fs W) {n : Node}
    → s.heap p ≡ some n
    → parent_id (some p) s ≡ ok (some n.id) s
unfolding parent_id
parent_id-ok p s here = rw (load-ok p s here)

notify_changed-ok :
    {W : Type 0} (p fields : Ptr) (s : Fs W) {n : Node}
    → s.heap p ≡ some n
    → notify_changed p fields s
      ≡ ok tt (record s { cache = slot_node_changed p n.id fields s.cache })
unfolding notify_changed
notify_changed-ok p fields s here = rw (load-ok p s here)

module _ (b : Backend) (s : Fs b.World) (from to p : Ptr) (a c n : Node) (name : String)
    (v : Moves s from to p a c n) where
  abbrev detached : Fs b.World
  detached = record s {
    heap =
        put (put s.heap p (some (record n { parent = none }))) from
          (some (record a { next = remove_ptr p a.next }));
  }

  abbrev named : Fs b.World
  named = record s { heap = put detached.heap p (some (record n { name = name; parent = none })) }

  abbrev attached : Fs b.World
  attached = record s {
    heap =
        put (put named.heap p (some (record n { name = name; parent = some to }))) to
          (some (record c { next = c.next ++ p ∷ [] }));
  }

  attached-Moved : Moved s.heap attached.heap from to p a c n name
  attached-Moved = record {
    entry = ground (arith, v.apart');
    left = ground (arith, v.apart, v.other);
    joined = ground arith;
    others = λ q x y z. ground arith;
  }

  detached-here : detached.heap p ≡ some (record n { parent = none })
  detached-here = ground (arith, v.apart)

  named-here : named.heap p ≡ some (record n { name = name; parent = none })
  named-here = ground arith

  named-target : named.heap to ≡ some c
  named-target = ground (arith, v.apart', v.other, v.target)

  abbrev fields : ℕ
  fields = field_name + field_parent

  update-ok :
      (w : b.World)
      → b.update n.id fields name (some c.id) s.world ≡ done tt w
      → cloud_update b p fields attached ≡ ok tt (record attached { world = w })
  unfolding cloud_update
  update-ok w accepted = rw (
    load-ok p attached attached-Moved.entry,
    parent_id-ok to attached attached-Moved.joined,
    accepted,
  )

  differ : rename_fields from to ≡ fields
  differ = ground (arith, v.other)

  -- Moving an entry to another directory that does not have it, over no entry of the new name, when
  -- the cloud accepts the new name and the new parent's id: the entry has the new name and parent,
  -- the old parent lists it no longer, the new one lists it last, no other node has changed, the
  -- cache is told that the entry's name and parent have changed, and the cloud is as that update of
  -- the entry's id with the new name and the new parent's id has left it.
  pub move-Moved :
      (w : b.World)
      → b.update n.id fields name (some c.id) s.world ≡ done tt w
      → (t : Fs b.World) × (move b p from to none name s ≡ ok tt t)
        × Moved s.heap t.heap from to p a c n name
        × (t.cache ≡ slot_node_changed p n.id fields s.cache)
        × (t.world ≡ w)
  unfolding move
  move-Moved w accepted = (
    record attached { cache = slot_node_changed p n.id fields s.cache; world = w },
    rw (
      detach_node-ok from p s v.apart v.source v.here v.listed,
      set_name-ok b p detached name detached-here,
      attach_node-ok to p named v.apart' named-target named-here v.unlisted,
      differ,
      update-ok w accepted,
      notify_changed-ok p fields (record attached { world = w }) attached-Moved.entry,
    ),
    attached-Moved,
    refl,
    refl,
  )

  -- After such a move `get` still answers, from the cache, every path that the cache held for a node
  -- and that is not the path recorded for the moved entry: also the old paths of what lies below it.
  pub move-stale :
      (w : b.World) (path : Elements) (q : Ptr)
      → b.update n.id fields name (some c.id) s.world ≡ done tt w
      → path ≢ root_path
      → find_by_path path s.cache ≡ some q
      → lookup p s.cache.nodes ≢ some path
      → (t : Fs b.World) × (move b p from to none name s ≡ ok tt t) × (get b path t ≡ ok (some q) t)
  unfolding get slot_node_changed
  move-stale w path q accepted ne cached other =
      let (t, runs, _, dropped, _) = move-Moved w accepted in
      (t, runs, ground (arith, slot_node_removed-others p n.id s.cache path other))
