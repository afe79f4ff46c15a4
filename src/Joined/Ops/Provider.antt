-- ===== src/Joined/Ops/Provider.antt =====
-- The joined file system with the gate's two mounts, on paths of the provider's.
use gd2fuse.Base.{
  ℕ, String, Bool, ◌≡◌, ◌≢◌, refl, some, [], ◌∷◌, nat_eq, string_eq, list_eq, arith, ==_false,
}
use gd2fuse.FilePath.{Elements}
use gd2fuse.FilePath.Laws.{from_path_it_lem}
use gd2fuse.FileSystem.{Operations}
use gd2fuse.Joined.{MountPtr, FsPtr, find_mount_point, mount_child}
use gd2fuse.Joined.Routes.{gate_tree, tree-routes}
use gd2fuse.Joined.Ops.{joined_get, joined_create, found, target}

module _ {W N : Type 0} (fss : FsPtr → Operations W N) (mount_node : MountPtr → N)
    (main conf : FsPtr) (root_mode : ℕ) (control : String) (conf_mode : ℕ) (e : String)
    (rest : Elements) (other : e ≢ control) where
  -- Below the root, but not below the control directory, the joined file system is the provider's.
  pub joined_get-main :
      (s : W)
      → joined_get fss mount_node
          (some (gate_tree main conf root_mode control conf_mode))
          ("/" ∷ e ∷ rest)
          s
        ≡ (fss main).get ("/" ∷ e ∷ rest) s
  unfolding joined_get found find_mount_point mount_child nat_eq
  joined_get-main s = ground (arith, other, from_path_it_lem (e ∷ rest))

  pub joined_create-main :
      (d : Bool) (s : W)
      → joined_create fss mount_node
          (some (gate_tree main conf root_mode control conf_mode))
          ("/" ∷ e ∷ rest)
          d
          s
        ≡ (fss main).create_node ("/" ∷ e ∷ rest) d s
  unfolding joined_create target
  joined_create-main d s = by_rest rest
    where
      by_rest :
          (r : Elements)
          → joined_create fss mount_node
              (some (gate_tree main conf root_mode control conf_mode))
              ("/" ∷ e ∷ r)
              d
              s
            ≡ (fss main).create_node ("/" ∷ e ∷ r) d s
      by_rest [] =
          rw
            (
              tree-routes main conf root_mode root_mode conf_mode control (e ∷ []),
              ==_false e control other,
            )
            refl
      by_rest (f ∷ r) =
          rw
            (
              tree-routes main conf root_mode root_mode conf_mode control (e ∷ f ∷ r),
              ==_false e control other,
            )
            refl
