-- ===== src/Tree/Freed.antt =====
-- A freed node stays freed: allocation takes new addresses, and nothing is written through a dangling
-- pointer.
use gd2fuse.Base.{
  ℕ, zero, suc, ◌<◌, ◌≡◌, refl, Bool, true, false, Option, none, some, nat_eq, arith, Option-cases,
  ◌⊎◌, inl, inr,
}
use gd2fuse.Cache.{Ptr, Cache, slot_node_removed}
use gd2fuse.Node.{Node}
use gd2fuse.Outcome.{Error, fault, each}
use gd2fuse.Outcome.Invariant.{
  After, Keeps, Keeps-bind, Keeps-each, Ends, After-Ends, Ends-and_then,
}
use gd2fuse.Tree.{Answer, done, failed, Fs, load, store, alloc, free, call, put, on_cache}
use gd2fuse.Tree.Lookup.{add_next, destroy}
use gd2fuse.Tree.Change.{notify_removed}

module _ {W : Type 0} (p : Ptr) (freed : Bool) where
  -- The address has been allocated, and is free if the flag says so.
  abbrev pub Freed : Fs W → Type 0
  Freed s = (freed ≡ true → s.heap p ≡ none) × (p < s.fresh)

  pub load-Freed : (q : Ptr) → Keeps Freed (load q)
  unfolding load
  load-Freed q s i = elim (Option-cases (s.heap q)) [
    | inl h ↦ rw (h, After) tt
    | inr (n, h) ↦ rw (h, After) i
  ]

  put-Freed :
      (s : Fs W) (q : Ptr) (n : Node) (c : Option Node)
      → s.heap q ≡ some n
      → s.heap p ≡ none
      → put s.heap q c p ≡ none
  unfolding nat_eq
  put-Freed s q n c h g = ground arith

  pub store-Freed : (q : Ptr) (m : Node) → Keeps Freed (store q m)
  unfolding store
  store-Freed q m s i = elim (Option-cases (s.heap q)) [
    | inl h ↦ rw (h, After) tt
    | inr (n, h) ↦ rw (h, After) (λ e. put-Freed s q n (some m) h (i.0 e), i.1)
  ]

  pub free-Freed : (q : Ptr) → Keeps Freed (free q)
  unfolding free
  free-Freed q s i = elim (Option-cases (s.heap q)) [
    | inl h ↦ rw (h, After) tt
    | inr (n, h) ↦ rw (h, After) (λ e. put-Freed s q n none h (i.0 e), i.1)
  ]

  pub alloc-Freed : (n : Node) → Keeps Freed (alloc n)
  unfolding alloc nat_eq
  alloc-Freed n s i = (λ e. fresh s i (i.0 e), omega (arith, i.1))
    where
      fresh : (s : Fs W) → Freed s → s.heap p ≡ none → put s.heap s.fresh (some n) p ≡ none
      fresh s i h = ground (arith, i.1)

  Answer-cases :
      {A : Type 0} (a : Answer W A)
      → ((x : A) × (w : W) × (a ≡ done x w)) ⊎ ((e : Error) × (w : W) × (a ≡ failed e w))
  Answer-cases (done x w) = inl (x, w, refl)
  Answer-cases (failed e w) = inr (e, w, refl)

  pub call-Freed : {A : Type 0} (f : W → Answer W A) → Keeps Freed (call f)
  call-Freed f s i = elim (Answer-cases (f s.world)) [
    | inl (x, w, h) ↦ rw (h, After) i
    | inr (e, w, h) ↦ rw (h, After) i
  ]

  pub on_cache-Freed : (f : Cache → Cache) → Keeps Freed (on_cache f)
  on_cache-Freed f s i = i

  pub notify_removed-Freed : (q : Ptr) → Keeps Freed (notify_removed q)
  unfolding notify_removed
  notify_removed-Freed q =
      Keeps-bind Freed (load q) _ (load-Freed q) (λ n. on_cache-Freed (slot_node_removed q n.id))

  pub add_next-Freed : (q v : Ptr) → Keeps Freed (add_next q v)
  unfolding add_next
  add_next-Freed q v = Keeps-bind Freed (load q) _ (load-Freed q) (λ n. store-Freed q _)

  pub destroy-Freed : (k : ℕ) (q : Ptr) → Keeps Freed (destroy k q)
  unfolding destroy
  destroy-Freed zero q = λ s i. tt
  destroy-Freed (suc k) q = Keeps-bind Freed (load q) _ (load-Freed q) (λ n.
      Keeps-bind Freed (each (destroy k) n.next) _
        (Keeps-each Freed (destroy k) n.next (destroy-Freed k)) (λ _. free-Freed q))

pub load-freed : {W : Type 0} (p : Ptr) (s : Fs W) → s.heap p ≡ none → load p s ≡ fault
unfolding load
load-freed p s h = rw (h, load)

module _ {W : Type 0} (p : Ptr) where
  free-frees : (s : Fs W) → p < s.fresh → Ends (Freed p true) (free p s)
  unfolding free
  free-frees s l = elim (Option-cases (s.heap p)) [
    | inl h ↦ rw (h, Ends) tt
    | inr (n, h) ↦ rw (h, Ends) (λ e. put-self s, l)
  ]
    where
      put-self : (s : Fs W) → put s.heap p none p ≡ none
      put-self s = ground arith

  -- Deleting a node frees it.
  pub destroy-frees : (k : ℕ) (s : Fs W) → p < s.fresh → Ends (Freed p true) (destroy k p s)
  unfolding destroy nat_eq
  destroy-frees zero s l = tt
  destroy-frees (suc k) s l =
      Ends-and_then (Freed p false) (Freed p true) (load p s) _
        (After-Ends (Freed p false) (load p s) (load-Freed p false p s (λ e. cc, l)))
        (λ n t i.
          Ends-and_then (Freed p false) (Freed p true) (each (destroy k) n.next t) _
            (After-Ends (Freed p false) (each (destroy k) n.next t)
              (Keeps-each (Freed p false) (destroy k) n.next (destroy-Freed p false k) t i))
            (λ _ u j. free-frees u j.1))
