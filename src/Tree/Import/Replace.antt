-- ===== src/Tree/Import/Replace.antt =====
-- replaceNode of a node that is a child of its parent.
use gd2fuse.Base.{
  ℕ, zero, suc, ◌+◌, ◌<◌, ◌≡◌, ◌≢◌, refl, true, false, Option, none, some, List, [], ◌∷◌, ◌==◌,
  nat_eq, length, arith, ◌⊎◌, inl, inr,
}
use gd2fuse.Cache.{Ptr}
use gd2fuse.FilePath.{Elements}
use gd2fuse.Node.{Node, Timespec, set_meta, is_folder}
use gd2fuse.Outcome.{Outcome, ok, threw, fault, out_of_fuel, pure, and_then, ◌>>◌}
use gd2fuse.Outcome.Invariant.{
  After, Keeps, After-and_then, Keeps-bind, Keeps-pure, Keeps-if, Ends, After-Ends, Ends-and_then,
  Ends-never,
}
use gd2fuse.Tree.{Backend, Fs, load, alloc, call}
use gd2fuse.Tree.Memory.{load-ok}
use gd2fuse.Tree.Lookup.{add_next, destroy, get_node}
use gd2fuse.Tree.Change.{contains, notify_removed, notify_changed}
use gd2fuse.Tree.Content.{o_creat, open_content}
use gd2fuse.Tree.Content.Handle.{Descriptors, Opened, handle_write, handle_close, handle_destroy}
use gd2fuse.Tree.Import.{
  Info, SourceContent, Source, file, folder, Sources, nil, cons, imported, as_folder, copy_blocks,
  released, copy_content, new_entry, import_source, import_all, assert_parent, remove_old,
  import_n_replace, changed_node, replace_node,
}
use gd2fuse.Tree.Content.Freeing.{
  HandleFreed, handle_write-Freed, open_content-Freed, handle_close-Freed, handle_destroy-Freed,
}
use gd2fuse.Tree.Freed.{
  Freed, load-Freed, store-Freed, alloc-Freed, call-Freed, notify_removed-Freed, add_next-Freed,
  destroy-frees, load-freed,
}

module _ (b : Backend) (cm : Descriptors b.World) (p : Ptr) where
  blocks-cases :
      (r : Option (List ℕ))
      → (r ≡ none) ⊎ ((r ≡ some []) ⊎ ((x : ℕ) × (xs : List ℕ) × (r ≡ some (x ∷ xs))))
  blocks-cases none = inl refl
  blocks-cases (some []) = inr (inl refl)
  blocks-cases (some (x ∷ xs)) = inr (inr (x, xs, refl))

  copy_blocks-Freed :
      (c : SourceContent) (k offset : ℕ) → Keeps (HandleFreed b cm p) (copy_blocks b cm c k offset)
  unfolding copy_blocks
  copy_blocks-Freed c zero offset s i = tt
  copy_blocks-Freed c (suc k) offset s i = elim (blocks-cases (c.read 4096 offset)) [
    | inl e ↦ rw (e, After) i
    | inr (inl e) ↦ rw (e, After) i
    | inr (inr (x, xs, e)) ↦
        rw (e, After)
          (After-and_then (HandleFreed b cm p)
            (handle_write b cm (x ∷ xs) (offset + length (x ∷ xs)) s) _
            (handle_write-Freed b cm p (x ∷ xs) (offset + length (x ∷ xs)) s i)
            (λ _. copy_blocks-Freed c k (offset + length (x ∷ xs))))
  ]

  abbrev IsFreed : Fs b.World → Type 0
  IsFreed = Freed p true

  released-Freed :
      (o : Outcome (Opened b) (Unit {0}))
      → After (HandleFreed b cm p) o
      → After IsFreed (released b cm o)
  unfolding released
  released-Freed (ok _ (h, s)) i = handle_destroy-Freed b cm p h s i
  released-Freed (threw e (h, s)) i =
      After-and_then IsFreed (handle_destroy b cm h s) _ (handle_destroy-Freed b cm p h s i)
        (λ _ t j. j)
  released-Freed fault i = tt
  released-Freed out_of_fuel i = tt

  module _ (now : Timespec) (rounds : ℕ) where
    copy_content-Freed :
        (nn : Ptr) (c : SourceContent) → Keeps IsFreed (copy_content b cm now rounds nn c)
    unfolding copy_content
    copy_content-Freed nn c = Keeps-if IsFreed (c.size == 0) _ _ (Keeps-pure IsFreed tt) (
        Keeps-bind IsFreed (open_content b now nn o_creat) _
          (open_content-Freed b cm p now nn o_creat)
          (λ h s i. released-Freed ((copy_blocks b cm c rounds 0 >> handle_close b cm) (h, s)) (
            After-and_then (HandleFreed b cm p) (copy_blocks b cm c rounds 0 (h, s)) _
              (copy_blocks-Freed c rounds 0 (h, s) i) (λ _. handle_close-Freed b cm p))))

    new_entry-Freed : (this : Ptr) (i : Info) → Keeps IsFreed (new_entry b cm now rounds this i)
    unfolding new_entry
    new_entry-Freed this i = Keeps-bind IsFreed (load this) _ (load-Freed p true this) (λ q.
        Keeps-bind IsFreed (call (b.create_meta i.name q.id (is_folder (imported this i)))) _
          (call-Freed p true (b.create_meta i.name q.id (is_folder (imported this i))))
          (λ m.
            Keeps-bind IsFreed (alloc (set_meta m (imported this i))) _
              (alloc-Freed p true (set_meta m (imported this i)))
              (λ nn.
                Keeps-bind IsFreed (add_next this nn) _ (add_next-Freed p true this nn)
                  (λ _ s j. j))))

    mutual
      unfolding import_source

      import_source-Freed :
          (this : Ptr) (v : Source) → Keeps IsFreed (import_source b cm now rounds this v)
      import_source-Freed this (file i c) =
          Keeps-bind IsFreed (new_entry b cm now rounds this i) _ (new_entry-Freed this i)
            (λ nn. copy_content-Freed nn c)
      import_source-Freed this (folder i cs) =
          Keeps-bind IsFreed (new_entry b cm now rounds this (as_folder i)) _
            (new_entry-Freed this (as_folder i)) (λ nn. import_all-Freed nn cs)

      import_all-Freed :
          (nn : Ptr) (cs : Sources) → Keeps IsFreed (import_all b cm now rounds nn cs)
      import_all-Freed nn nil = Keeps-pure IsFreed tt
      import_all-Freed nn (cons c cs) =
          Keeps-bind IsFreed (import_source b cm now rounds nn c) _ (import_source-Freed nn c)
            (λ _. import_all-Freed nn cs)

    -- From a node whose parent lists it, the removal ends with the node freed.
    remove_old-frees :
        (this : Ptr) (n m : Node) (s : Fs b.World)
        → p < s.fresh
        → s.heap p ≡ some n
        → s.heap this ≡ some m
        → contains m.next p ≡ true
        → Ends IsFreed (remove_old b cm now rounds this p s)
    unfolding remove_old
    remove_old-frees this n m s l here above listed =
        rw (load-ok this s above, listed, load-ok p s here, Ends)
          (Ends-and_then (Freed p false) IsFreed (call (b.remove n.id) s) _
            (After-Ends (Freed p false) (call (b.remove n.id) s)
              (call-Freed p false (b.remove n.id) s (λ e. cc, l)))
            (λ _ t i.
              Ends-and_then (Freed p false) IsFreed (notify_removed p t) _
                (After-Ends (Freed p false) (notify_removed p t)
                  (notify_removed-Freed p false p t i))
                (λ _ u j.
                  Ends-and_then IsFreed IsFreed (destroy u.fresh p u) _
                    (destroy-frees p u.fresh u j.1)
                    (λ _ v k. After-Ends IsFreed _ (
                      Keeps-bind IsFreed (load this) _ (load-Freed p true this)
                        (λ q. store-Freed p true this _) v k)))))

    changed_node-never :
        (s : Fs b.World) → IsFreed s → changed_node b cm now rounds p true s ≡ fault
    unfolding changed_node notify_changed
    changed_node-never s i = rw (load-freed p s (i.0 refl)) refl

    assert_parent-ok :
        (this : Ptr) (s : Fs b.World) → assert_parent b cm now rounds this (some this) s ≡ ok tt s
    unfolding assert_parent nat_eq
    assert_parent-ok this s = ground arith

    import-changed-never :
        (base : Ptr) (v : Source) (s : Fs b.World)
        → IsFreed s
        → Ends
            (λ _. ⊥)
            (and_then
              (and_then (import_source b cm now rounds base v s) (λ _. pure true))
              (changed_node b cm now rounds p))
    import-changed-never base v s i =
        after (import_source b cm now rounds base v s) (import_source-Freed base v s i)
      where
        after :
            (o : Outcome (Fs b.World) (Unit {0}))
            → After IsFreed o
            → Ends
                (λ _. ⊥)
                (and_then (and_then o (λ _. pure true)) (changed_node b cm now rounds p))
        after (ok _ t) j = rw (changed_node-never t j) tt
        after (threw e t) j = tt
        after fault j = tt
        after out_of_fuel j = tt

    removed-changed-never :
        (base : Ptr) (v : Source) (o : Outcome (Fs b.World) (Unit {0}))
        → Ends IsFreed o
        → Ends
            (λ _. ⊥)
            (and_then
              (and_then o (λ _. import_source b cm now rounds base v >> pure true))
              (changed_node b cm now rounds p))
    removed-changed-never base v (ok _ t) j = import-changed-never base v t j
    removed-changed-never base v (threw e t) j = tt
    removed-changed-never base v fault j = tt
    removed-changed-never base v out_of_fuel j = tt

    pub replace_node-never :
        (path : Elements) (v : Source) (base : Ptr) (n m : Node) (s t u : Fs b.World)
        → get_node b path true s ≡ ok (some p) t
        → p < t.fresh
        → t.heap p ≡ some n
        → n.parent ≡ some base
        → t.heap base ≡ some m
        → contains m.next p ≡ true
        → replace_node b cm now rounds path v s ≢ ok tt u
    unfolding replace_node import_n_replace assert_parent
    replace_node-never path v base n m s t u found l here parent above listed =
        Ends-never (replace_node b cm now rounds path v s) tt u (
          rw
            (
              found,
              load-ok p t here,
              parent,
              load-ok p t here,
              parent,
              assert_parent-ok base t,
              Ends,
            )
            (removed-changed-never base v (remove_old b cm now rounds base p t)
              (remove_old-frees base n m t l here above listed)))
