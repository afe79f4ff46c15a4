-- ===== src/Tree/Lookup/Deepest.antt =====
-- Node::find against the node that a path's names lead to.
use gd2fuse.Base.{
  String, ◌≡◌, ◌≢◌, refl, ap, none, some, Option-cases, List, [], ◌∷◌, ◌++◌, string_eq, All, arith,
  inl, inr,
}
use gd2fuse.Cache.{Ptr}
use gd2fuse.FilePath.{Elements}
use gd2fuse.Node.{Node}
use gd2fuse.Outcome.{ok}
use gd2fuse.Tree.{Heap, Fs, load}
use gd2fuse.Tree.Heap.{IsClosed, child_named, resolve, child_named-allocated, resolve-cons}
use gd2fuse.Tree.Lookup.{find_child, find}

-- No child of `q` has the first of the names that are left.
abbrev pub Stops : Heap → Ptr → Elements → Type 0
Stops h q [] = Unit
Stops h q (e ∷ _) = (n : Node) → h q ≡ some n → child_named h n.next e ≡ none

pub record Deepest (h : Heap) (p : Ptr) (it : Elements) (r : Ptr × Elements) : Type 0 where
  pub taken : Elements
  pub split : taken ++ r.1 ≡ it
  pub reached : resolve h p taken ≡ some r.0
  pub allocated : h r.0 ≢ none
  pub stops : Stops h r.0 r.1

module _ {W : Type 0} (s : Fs W) where
  pub find_child_lem :
      (ps : List Ptr) (name : String)
      → All (λ c. s.heap c ≢ none) ps
      → find_child ps name s ≡ ok (child_named s.heap ps name) s
  unfolding find_child child_named load
  find_child_lem [] name v = refl
  find_child_lem (p ∷ ps) name v = ground (arith, find_child_lem ps name v.1)

  abbrev Finds : Ptr → Elements → Type 0
  Finds p it = (r : Ptr × Elements) × (find p it s ≡ ok r s) × Deepest s.heap p it r

  find_step :
      (closed : IsClosed s.heap) (p : Ptr) (e : String) (it : Elements) (n : Node)
      → s.heap p ≡ some n
      → ((q : Ptr) → s.heap q ≢ none → Finds q it)
      → Finds p (e ∷ it)
  unfolding find resolve
  find_step closed p e it n found next = elim (Option-cases (child_named s.heap n.next e)) [
    | inl missing ↦ (
      (p, e ∷ it),
      rw (found, load, find_child_lem n.next e (closed p n found), missing),
      record {
        taken = [];
        split = refl;
        reached = refl;
        allocated = rw found (λ h. cc);
        stops = λ m h. ground arith;
      },
    )
    | inr (q, named) ↦
        let (r, runs, d) = next q (child_named-allocated s.heap n.next e named) in
        (
          r,
          rw (found, load, find_child_lem n.next e (closed p n found), named) runs,
          record {
            taken = e ∷ d.taken;
            split = ap (◌∷◌ e) d.split;
            reached = rw (resolve-cons s.heap p q e d.taken found named) d.reached;
            allocated = d.allocated;
            stops = d.stops;
          },
        )
  ]

  -- In a heap whose children are allocated, `find` from an allocated node returns, changes nothing,
  -- and gives the node that the longest prefix of the names leads to, with the names that are left:
  -- none of that node's children has the first of them.
  pub find-Deepest :
      IsClosed s.heap
      → (p : Ptr) (it : Elements) → s.heap p ≢ none
      → (r : Ptr × Elements) × (find p it s ≡ ok r s) × Deepest s.heap p it r
  unfolding find resolve
  find-Deepest closed p [] alive = (
    (p, []),
    refl,
    record { taken = []; split = refl; reached = refl; allocated = alive; stops = tt },
  )
  find-Deepest closed p (e ∷ it) alive = elim (Option-cases (s.heap p)) [
    | inl gone ↦ absurd (alive gone)
    | inr (n, found) ↦ find_step closed p e it n found (λ q live. find-Deepest closed q it live)
  ]
