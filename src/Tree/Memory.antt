-- ===== src/Tree/Memory.antt =====
-- Reads and writes at an address that holds a node.
use gd2fuse.Base.{◌≡◌, some, none, [], ◌∷◌, ◌++◌, arith}
use gd2fuse.Cache.{Ptr}
use gd2fuse.Node.{Node}
use gd2fuse.Outcome.{ok}
use gd2fuse.Tree.{Fs, load, store, free, put}
use gd2fuse.Tree.Lookup.{add_next}

module _ {W : Type 0} (p : Ptr) (s : Fs W) {n : Node} (here : s.heap p ≡ some n) where
  pub load-ok : load p s ≡ ok n s
  unfolding load
  load-ok = rw (here, load)

  pub store-ok : (m : Node) → store p m s ≡ ok tt (record s { heap = put s.heap p (some m) })
  unfolding store
  store-ok m = rw (here, store)

  pub free-ok : free p s ≡ ok tt (record s { heap = put s.heap p none })
  unfolding free
  free-ok = rw (here, free)

  pub add_next-ok :
      (value : Ptr)
      → add_next p value s
        ≡ ok tt (record s { heap = put s.heap p (some (record n { next = n.next ++ value ∷ [] })) })
  unfolding add_next
  add_next-ok value = ground arith
