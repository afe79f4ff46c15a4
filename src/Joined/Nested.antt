-- ===== src/Joined/Nested.antt =====
-- buildBranch and getFS for a mount point two directories deep.
use mathlib.Core.Option.{some-injective}
use gd2fuse.Base.{
  ℕ, String, ◌≡◌, ◌≢◌, refl, ◌∙◌, ap, sym, none, some, List, [], ◌∷◌, ◌==◌, nat_eq, string_eq,
  if◌then◌else◌, arith,
}
use gd2fuse.FilePath.{Elements, root_path}
use gd2fuse.FilePath.Laws.{from_path_it_lem}
use gd2fuse.Joined.{
  FsPtr, MountNode, Mounts, set_node, push_mount, new_mount, mount_child, build, get_fs, Mount,
}

module _ (main conf : FsPtr) (root_mode mode conf_mode : ℕ) (a c : String) where
  abbrev pub nested_mounts : List Mount
  nested_mounts = (root_path, mode, main) ∷ ("/" ∷ a ∷ c ∷ [], conf_mode, conf) ∷ []

  abbrev tree : Mounts
  tree =
      let root : MountNode = record {
        parent = none;
        name = "/";
        next = [];
        mode = root_mode;
        fs = some main;
      } in
      let t : Mounts = record {
        node = λ q. if q == 0 then root else new_mount none "/" root_mode;
        fresh = 1;
      } in
      let u = push_mount (push_mount t 0 0 a conf_mode) 0 1 c conf_mode in
      set_node u 2 (record (u.node 2) { fs = some conf })

  tree-build : build root_mode nested_mounts ≡ some tree
  unfolding build mount_child nat_eq
  tree-build = refl

  tree-main :
      a ≢ c
      → (f : String) (rest : Elements)
      → get_fs tree ("/" ∷ a ∷ c ∷ f ∷ rest) ≡ some (main, "/" ∷ a ∷ c ∷ f ∷ rest)
  unfolding get_fs mount_child nat_eq
  tree-main ne f rest = ground (arith, from_path_it_lem (a ∷ c ∷ f ∷ rest))

  tree-conf :
      a ≢ c
      → (f : String) (rest : Elements)
      → get_fs tree ("/" ∷ c ∷ f ∷ rest) ≡ some (conf, "/" ∷ f ∷ rest)
  unfolding get_fs mount_child nat_eq
  tree-conf ne f rest = ground (arith, from_path_it_lem (f ∷ rest))

  -- With one file system at the root and another mounted at `/a/c`, for different names, a path
  -- below `/a/c` is routed to the first, and the second is reached below `/c` instead.
  pub nested_mount :
      (t : Mounts)
      → build root_mode nested_mounts ≡ some t
      → a ≢ c
      → (f : String) (rest : Elements)
      → (get_fs t ("/" ∷ a ∷ c ∷ f ∷ rest) ≡ some (main, "/" ∷ a ∷ c ∷ f ∷ rest))
        × (get_fs t ("/" ∷ c ∷ f ∷ rest) ≡ some (conf, "/" ∷ f ∷ rest))
  nested_mount t built ne f rest =
      let same = some-injective t tree (sym built ∙ tree-build) in
      (
        ap (λ u. get_fs u ("/" ∷ a ∷ c ∷ f ∷ rest)) same ∙ tree-main ne f rest,
        ap (λ u. get_fs u ("/" ∷ c ∷ f ∷ rest)) same ∙ tree-conf ne f rest,
      )
