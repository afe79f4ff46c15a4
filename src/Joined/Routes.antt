-- ===== src/Joined/Routes.antt =====
-- findMountPoint and getFS, and the two mounts of FuseGate::run.
use gd2fuse.Base.{
  ℕ, String, ◌≡◌, ◌≢◌, refl, ◌∙◌, ap, sym, Option, none, some, List, [], ◌∷◌, ◌++◌, ◌==◌, nat_eq,
  string_eq, list_eq, if◌then◌else◌, arith, Option-cases, inl, inr,
}
use mathlib.Core.Option.{some-injective}
use gd2fuse.FilePath.{Elements, root_path}
use gd2fuse.FilePath.Laws.{from_path_it_lem}
use gd2fuse.Joined.{
  MountPtr, FsPtr, MountNode, Mounts, mount_child, push_mount, build, mount_root, set_node,
  new_mount, Best, better, mount_loop, find_mount_point, get_fs, Mount,
}

-- The mount node that some elements lead to.
unfoldable pub walk : Mounts → MountPtr → Elements → Option MountPtr
walk t p [] = some p
walk t p (e ∷ it) = elim (mount_child t (t.node p).next e) [ none ↦ none | some q ↦ walk t q it ]

-- No node on the way from `p` along `it`, but `p` itself, is a mount point.
abbrev pub Bare : Mounts → MountPtr → Elements → Type 0
Bare t p it =
    (e : String) (xs ys : Elements) (q : MountPtr)
    → (e ∷ xs) ++ ys ≡ it
    → walk t p (e ∷ xs) ≡ some q
    → (t.node q).fs ≡ none

pub data Deepest (t : Mounts) (this : MountPtr) (it : Elements) : Best → Type 0 where
  nowhere : (t.node this).fs ≡ none → Bare t this it → Deepest t this it (none, [])
  at :
      (p : MountPtr) (taken rest : Elements)
      → taken ++ rest ≡ it
      → walk t this taken ≡ some p
      → (t.node p).fs ≢ none
      → Bare t p rest
      → Deepest t this it (some p, rest)

data LoopResult (t : Mounts) (curr : MountPtr) (best : Best) (it : Elements) (r : Best)
    : Type 0 where
  kept : r ≡ best → Bare t curr it → LoopResult t curr best it r
  found :
      (p : MountPtr) (e : String) (xs rest : Elements)
      → r ≡ (some p, rest)
      → (e ∷ xs) ++ rest ≡ it
      → walk t curr (e ∷ xs) ≡ some p
      → (t.node p).fs ≢ none
      → Bare t p rest
      → LoopResult t curr best it r

module _ (t : Mounts) where
  Bare-missing :
      (p : MountPtr) (e : String) (it : Elements)
      → mount_child t (t.node p).next e ≡ none
      → Bare t p (e ∷ it)
  unfolding walk
  Bare-missing p e it missing f xs ys q eq walks = let same : f ≡ e = cc in ground arith

  Bare-child :
      (p q : MountPtr) (e : String) (it : Elements)
      → mount_child t (t.node p).next e ≡ some q
      → (t.node q).fs ≡ none
      → Bare t q it
      → Bare t p (e ∷ it)
  unfolding walk
  Bare-child p q e it child plain bare f [] ys m eq walks = let same : f ≡ e = cc in ground arith
  Bare-child p q e it child plain bare f (x ∷ xs) ys m eq walks =
      let same : f ≡ e = cc in bare x xs ys m (cc) (ground arith)

  -- One step of the loop: from what the loop finds below the child `q`, to what it finds from `p`.
  step :
      (p q : MountPtr) (best : Best) (e : String) (it : Elements) (r : Best)
      → mount_child t (t.node p).next e ≡ some q
      → LoopResult t q (better t q it best) it r
      → LoopResult t p best (e ∷ it) r
  unfolding walk
  step p q best e it r child (kept same bare) = elim (Option-cases (t.node q).fs) [
    | inl plain ↦ kept (ground arith) (Bare-child p q e it child plain bare)
    | inr (fs, mounted) ↦ found q e [] it (ground arith) refl (ground arith) (ground arith) bare
  ]
  step p q best e it r child (found m f xs rest same split walks mounted bare) =
      found m e (f ∷ xs) rest same (ap (◌∷◌ e) split) (ground (arith, child)) mounted bare

  mount_loop-LoopResult :
      (p : MountPtr) (best : Best) (it : Elements) → LoopResult t p best it (mount_loop t p best it)
  unfolding mount_loop walk
  mount_loop-LoopResult p best [] = kept refl (λ e xs ys q eq walks. cc)
  mount_loop-LoopResult p best (e ∷ it) = elim (Option-cases (mount_child t (t.node p).next e)) [
    | inl missing ↦ rw (missing, mount_loop) (kept refl (Bare-missing p e it missing))
    | inr (q, child) ↦
        rw (child, mount_loop)
          (step p q best e it _ child (mount_loop-LoopResult q (better t q it best) it))
  ]

  finish :
      (this : MountPtr) (it : Elements) (r : Best)
      → LoopResult t this (better t this it (none, [])) it r
      → Deepest t this it r
  unfolding walk
  finish this it r (found p e xs rest same split walks mounted bare) =
      rw same (at p (e ∷ xs) rest split walks mounted bare)
  finish this it r (kept same bare) = elim (Option-cases (t.node this).fs) [
    | inl plain ↦
        let none_found : r ≡ (none, []) = ground arith in rw none_found (nowhere plain bare)
    | inr (fs, mounted) ↦
        let itself : r ≡ (some this, it) = ground arith in
        rw itself (at this [] it refl refl (ground arith) bare)
  ]

  -- findMountPoint gives the deepest mount point on the way along the elements, with the elements
  -- behind it; or none, with no elements, if there is no mount point on the way.
  pub find_mount_point-Deepest :
      (this : MountPtr) (it : Elements) → Deepest t this it (find_mount_point t this it)
  unfolding find_mount_point
  find_mount_point-Deepest this it = finish this it _ (mount_loop-LoopResult this _ it)

-- The tree that the two mounts of FuseGate::run make.
abbrev pub gate_tree : FsPtr → FsPtr → ℕ → String → ℕ → Mounts
gate_tree main conf root_mode control conf_mode =
    let root : MountNode = record {
      parent = none;
      name = "/";
      next = [];
      mode = root_mode;
      fs = some main;
    } in
    let t : Mounts = record {
      node = λ q. if q == mount_root then root else new_mount none "/" root_mode;
      fresh = 1;
    } in
    let u = push_mount t mount_root mount_root control conf_mode in
    set_node u 1 (record (u.node 1) { fs = some conf })

module _ (main conf : FsPtr) (root_mode mode conf_mode : ℕ) (control : String) where
  abbrev pub gate_mounts : List Mount
  gate_mounts = (root_path, mode, main) ∷ ("/" ∷ control ∷ [], conf_mode, conf) ∷ []

  gate-build : build root_mode gate_mounts ≡ some (gate_tree main conf root_mode control conf_mode)
  unfolding build nat_eq
  gate-build = refl

  abbrev pub gate_route : Elements → Option (FsPtr × Elements)
  gate_route [] = none
  gate_route (e ∷ []) = if e == control then none else some (main, "/" ∷ e ∷ [])
  gate_route (e ∷ f ∷ rest) =
      if e == control then some (conf, "/" ∷ f ∷ rest) else some (main, "/" ∷ e ∷ f ∷ rest)

  abbrev pub tree : Mounts
  tree = gate_tree main conf root_mode control conf_mode

  pub tree-routes : (names : Elements) → get_fs tree ("/" ∷ names) ≡ gate_route names
  unfolding get_fs mount_child nat_eq
  tree-routes [] = refl
  tree-routes (e ∷ []) = ground (arith, from_path_it_lem (e ∷ []))
  tree-routes (e ∷ f ∷ rest) =
      ground (arith, from_path_it_lem (e ∷ f ∷ rest), from_path_it_lem (f ∷ rest))

  -- With the two mounts of the gate, the provider at the root and the configuration at a directory of
  -- the root, a path below the control directory goes to the configuration, with that directory left
  -- out; the root and the control directory itself go to no file system; all else goes to the
  -- provider unchanged.
  pub get_fs-gate_route :
      (t : Mounts) (names : Elements)
      → build root_mode gate_mounts ≡ some t
      → get_fs t ("/" ∷ names) ≡ gate_route names
  get_fs-gate_route t names built =
      ap (λ u. get_fs u ("/" ∷ names)) (some-injective t tree (sym built ∙ gate-build))
      ∙ tree-routes names
