-- ===== src/Tree/Heap.antt =====
-- Heaps whose child lists name allocated nodes, and the node that a relative path names in a heap.
use gd2fuse.Base.{
  String, ◌≡◌, ◌≢◌, Option, none, some, List, [], ◌∷◌, ◌==◌, string_eq, if◌then◌else◌, All, arith,
}
use gd2fuse.Cache.{Ptr}
use gd2fuse.FilePath.{Elements}
use gd2fuse.Node.{Node}
use gd2fuse.Tree.{Heap}

abbrev pub IsClosed : Heap → Type 0
IsClosed h = (p : Ptr) (n : Node) → h p ≡ some n → All (λ c. h c ≢ none) n.next

-- The first of some nodes that has a name.
unfoldable pub child_named : Heap → List Ptr → String → Option Ptr
child_named h [] name = none
child_named h (p ∷ ps) name = elim (h p) [
  | none ↦ child_named h ps name
  | some n ↦ if n.name == name then some p else child_named h ps name
]

-- The node that is reached by the names, one directory after the other.
unfoldable pub resolve : Heap → Ptr → Elements → Option Ptr
resolve h p [] = some p
resolve h p (e ∷ it) = elim (h p) [
  | none ↦ none
  | some n ↦ elim (child_named h n.next e) [ none ↦ none | some q ↦ resolve h q it ]
]

pub child_named-allocated :
    (h : Heap) (ps : List Ptr) (name : String) {q : Ptr}
    → child_named h ps name ≡ some q
    → h q ≢ none
unfolding child_named
child_named-allocated h [] name e = cc
child_named-allocated h (p ∷ ps) name {q} e =
    ground (arith, child_named-allocated h ps name {q = q})

pub resolve-cons :
    (h : Heap) (p q : Ptr) (e : String) (it : Elements) {n : Node}
    → h p ≡ some n
    → child_named h n.next e ≡ some q
    → resolve h p (e ∷ it) ≡ resolve h q it
unfolding resolve
resolve-cons h p q e it found named = ground arith
