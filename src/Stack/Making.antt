-- ===== src/Stack/Making.antt =====
-- A directory that the kernel makes is there afterwards.
use gd2fuse.Base.{
  ℕ, String, true, ◌≡◌, ◌≢◌, refl, ap, ◌∙◌, Option, none, some, Option-cases, [], ◌∷◌, nat_eq,
  string_eq, list_eq, arith, ◌⊎◌, inl, inr, ==_true,
}
use gd2fuse.Cache.{Ptr, find_by_path, add}
use gd2fuse.Errno.{eexist, enotdir}
use gd2fuse.FilePath.{Elements}
use gd2fuse.FileSystem.{Operations, CreateStatus, create_success, create_already_exists}
use gd2fuse.Node.{Node, Timespec, is_folder}
use gd2fuse.Outcome.{Error, ok}
use gd2fuse.Joined.{MountPtr, FsPtr}
use gd2fuse.Joined.Ops.{joined}
use gd2fuse.Joined.Ops.Provider.{joined_get-main, joined_create-main}
use gd2fuse.Gate.{pos, negated, Nodes, get_inode, create_dir, create_errno}
use gd2fuse.Gate.Handler.{g2f_mkdir, g2f_access}
use gd2fuse.Tree.{Heap, Backend, Fs}
use gd2fuse.Tree.Heap.{resolve, child_named, child_named-allocated}
use gd2fuse.Tree.Lookup.{get}
use gd2fuse.Tree.Lookup.Get.{get-resolved}
use gd2fuse.Tree.Change.{create_node}
use gd2fuse.Tree.Change.Create.{Accepts}
use gd2fuse.Tree.Change.CreateNode.{IsWhole, Outcomes, create_node-Outcomes, exists_already, makes}
use gd2fuse.Tree.Change.Whole.{create_node-IsWhole}
use gd2fuse.Tree.Change.Directory.{TellsFolders, create_node-IsDirectory}
use gd2fuse.Tree.Content.Handle.{Descriptors}
use gd2fuse.Tree.Import.{Source}
use gd2fuse.Stack.{tree_operations, systems, served}

resolve-allocated :
    (h : Heap) (p q : Ptr) (it : Elements) → h p ≢ none → resolve h p it ≡ some q → h q ≢ none
unfolding resolve
resolve-allocated h p q [] alive e = ground (arith, alive)
resolve-allocated h p q (x ∷ it) alive e = elim (Option-cases (h p)) [
  | inl gone ↦ absurd (alive gone)
  | inr (n, here) ↦ elim (Option-cases (child_named h n.next x)) [
    | inl missing ↦ ground arith
    | inr (c, named) ↦
        ground (arith, resolve-allocated h c q it (child_named-allocated h n.next x named))
  ]
]

module _ (b : Backend) (cm : Descriptors b.World) (now : Timespec) (rounds : ℕ)
    (source_of : Ptr → Source) (conf_fs : Operations (Fs b.World) Ptr) (mount_node : MountPtr → Ptr)
    (main conf : FsPtr) (root_mode : ℕ) (control : String) (conf_mode : ℕ) {H A : Type 0}
    (nodes : Nodes (Fs b.World) Ptr H A) (condition : Error → ℕ) where
  abbrev pub fs : Operations (Fs b.World) Ptr
  fs = served b cm now rounds source_of conf_fs mount_node main conf root_mode control conf_mode

  abbrev of_stack : FsPtr → Operations (Fs b.World) Ptr
  of_stack =
      systems b cm now rounds source_of conf_fs mount_node main conf root_mode control conf_mode

  abbrev of_tree : Operations (Fs b.World) Ptr
  of_tree = tree_operations b cm now rounds source_of

  systems-main : of_stack main ≡ of_tree
  systems-main = rw (==_true main main refl) refl

  module _ (e : String) (rest : Elements) (other : e ≢ control) where
    get-main : (s : Fs b.World) → fs.get ("/" ∷ e ∷ rest) s ≡ get b ("/" ∷ e ∷ rest) s
    unfolding joined
    get-main s =
        joined_get-main of_stack mount_node main conf root_mode control conf_mode e rest other s
        ∙ ap (λ o. o.get ("/" ∷ e ∷ rest) s) systems-main

    create-main :
        (s : Fs b.World)
        → fs.create_node ("/" ∷ e ∷ rest) true s ≡ create_node b ("/" ∷ e ∷ rest) true s
    unfolding joined
    create-main s =
        joined_create-main of_stack mount_node main conf root_mode control conf_mode e rest other
          true s
        ∙ ap (λ o. o.create_node ("/" ∷ e ∷ rest) true s) systems-main

    access-found :
        (s u : Fs b.World) (q : Ptr)
        → get b ("/" ∷ e ∷ rest) s ≡ ok (some q) u
        → g2f_access fs nodes condition ("/" ∷ e ∷ rest) s ≡ ok (pos 0) u
    unfolding g2f_access get_inode
    access-found s u q runs = rw (get-main s, runs) refl

    mkdir-created :
        (s t : Fs b.World) (status : CreateStatus) (o : Option Ptr)
        → create_node b ("/" ∷ e ∷ rest) true s ≡ ok (status, o) t
        → g2f_mkdir fs nodes condition ("/" ∷ e ∷ rest) s
          ≡ ok (negated (create_errno enotdir status)) t
    unfolding g2f_mkdir create_dir
    mkdir-created s t status o runs = rw (create-main s, runs) refl

    -- What `mkdir` does, and what `access` answers then.
    abbrev pub Makes : Fs b.World → Ptr → Type 0
    Makes s r =
        ((q : Ptr) × (t : Fs b.World) × (u : Fs b.World) × (resolve s.heap r (e ∷ rest) ≡ none)
          × (g2f_mkdir fs nodes condition ("/" ∷ e ∷ rest) s ≡ ok (pos 0) t)
          × (resolve t.heap r (e ∷ rest) ≡ some q)
          × ((n : Node) × (t.heap q ≡ some n) × (is_folder n ≡ true))
          × IsWhole t r
          × (g2f_access fs nodes condition ("/" ∷ e ∷ rest) t ≡ ok (pos 0) u))
        ⊎ ((q : Ptr) × (u : Fs b.World) × (resolve s.heap r (e ∷ rest) ≡ some q)
            × (g2f_mkdir fs nodes condition ("/" ∷ e ∷ rest) s ≡ ok (negated eexist) s)
            × (g2f_access fs nodes condition ("/" ∷ e ∷ rest) s ≡ ok (pos 0) u))

    module _ (a : Accepts b) (tells : TellsFolders b a) (s : Fs b.World) (r : Ptr) (v : IsWhole s r)
        (uncached : find_by_path ("/" ∷ e ∷ rest) s.cache ≡ none) where
      accessible :
          (t : Fs b.World) (q : Ptr)
          → IsWhole t r
          → find_by_path ("/" ∷ e ∷ rest) t.cache ≡ none
          → resolve t.heap r (e ∷ rest) ≡ some q
          → (u : Fs b.World) × (g2f_access fs nodes condition ("/" ∷ e ∷ rest) t ≡ ok (pos 0) u)
      accessible t q w missing named = elim (Option-cases (t.heap q)) [
        | inl gone ↦ absurd (resolve-allocated t.heap r q (e ∷ rest) w.alive named gone)
        | inr (n, there) ↦ (
          record t { cache = add ("/" ∷ e ∷ rest) n.id q t.cache },
          access-found t _ q (
              get-resolved b t r "/" (e ∷ rest) q n
                (record {
                  closed = w.closed;
                  rooted = w.rooted;
                  alive = w.alive;
                  not_root = λ h. cc;
                  uncached = missing;
                })
                named there),
        )
      ]

      outcome-Makes : Outcomes b s r ("/" ∷ e ∷ rest) (e ∷ rest) true → Makes s r
      outcome-Makes (exists_already q named runs) =
          let (u, found) = accessible s q v uncached named in
          inr (q, u, named, mkdir-created s s create_already_exists none runs, found)
      outcome-Makes (makes q t nowhere runs named kept cache) =
          let whole =
            create_node-IsWhole b a s t r v "/" (e ∷ rest) true (create_success, some q) runs in
          let (u, found) = accessible t q whole (rw cache uncached) named in
          inl (
            q,
            t,
            u,
            nowhere,
            mkdir-created s t create_success (some q) runs,
            named,
            create_node-IsDirectory b a tells s t r q v "/" (e ∷ rest) runs,
            whole,
            found,
          )

      -- For a path of the provider's file system that the cache does not hold, in a whole state and with
      -- a cloud that accepts new entries under the names asked for, and describes those that are asked
      -- for as directories so: if the path leads nowhere, `mkdir` answers 0, the path leads to a
      -- directory then, and the state stays whole; if it leads to a node already, `mkdir` answers
      -- -EEXIST and changes nothing. In both cases `access` of the path answers 0 then.
      pub mkdir-Makes : Makes s r
      mkdir-Makes = outcome-Makes (create_node-Outcomes b a s r v "/" (e ∷ rest) true)
