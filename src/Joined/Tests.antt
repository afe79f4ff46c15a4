-- ===== src/Joined/Tests.antt =====
-- Concrete mounts, as FuseGate::run makes them, and a listing with a mount in it.
use gd2fuse.Base.{
  String, ◌≡◌, ◌≢◌, refl, ap, some, none, Option, [], ◌∷◌, List, ◌++◌, arith, nat_eq, string_eq,
  list_eq, ◌==◌, Bool, true, false,
}
use gd2fuse.Errno.{eacces}
use gd2fuse.FileSystem.{Operations, create_success, remove_success}
use gd2fuse.Outcome.{ok, pure, throw, system_error}
use gd2fuse.Joined.{FsPtr, MountPtr, Mounts, build, get_fs, find_mount_point, mount_child}
use gd2fuse.Joined.Routes.{
  Deepest, find_mount_point-Deepest, gate_tree, gate_route, get_fs-gate_route,
}
use gd2fuse.Joined.Nested.{nested_mount, nested_mounts}
use gd2fuse.Joined.Merge.{NodeMap, merge_it, drain, visible, mounted, drain-merge_it}
use gd2fuse.Joined.Ops.{joined_rename}
use gd2fuse.Joined.Ops.Rename.{Apart, Careful, KeptByCopies, joined_rename-Careful}

abbrev gate : Mounts
gate = gate_tree 7 8 488 "control" 360

find_mount_point-Deepest_example :
    Deepest gate 0 ("control" ∷ "x" ∷ []) (find_mount_point gate 0 ("control" ∷ "x" ∷ []))
find_mount_point-Deepest_example = find_mount_point-Deepest gate 0 ("control" ∷ "x" ∷ [])

get_fs-gate_route_example :
    get_fs gate ("/" ∷ "control" ∷ "x" ∷ [])
    ≡ gate_route 7 8 488 488 360 "control" ("control" ∷ "x" ∷ [])
unfolding build nat_eq
get_fs-gate_route_example =
    get_fs-gate_route 7 8 488 488 360 "control" gate ("control" ∷ "x" ∷ []) refl

control_route : get_fs gate ("/" ∷ "control" ∷ "x" ∷ []) ≡ some (8, "/" ∷ "x" ∷ [])
unfolding get_fs mount_child nat_eq string_eq
control_route = refl

abbrev deep_tree : Option Mounts
deep_tree = build 488 (nested_mounts 7 8 488 488 360 "a" "c")

abbrev get_some : Option Mounts → Mounts
get_some none = gate
get_some (some t) = t

abbrev is_a : String → Bool
is_a s = s == "a"

different : ◌≢◌ {A = String} "a" "c"
unfolding string_eq
different h = let same : true ≡ false = ap is_a h in cc

nested_mount_example :
    (get_fs (get_some deep_tree) ("/" ∷ "a" ∷ "c" ∷ "f" ∷ [])
      ≡ some (7, "/" ∷ "a" ∷ "c" ∷ "f" ∷ []))
    × (get_fs (get_some deep_tree) ("/" ∷ "c" ∷ "f" ∷ []) ≡ some (8, "/" ∷ "f" ∷ []))
unfolding build mount_child nat_eq
nested_mount_example =
    nested_mount 7 8 488 488 360 "a" "c" (get_some deep_tree) refl different "f" []

abbrev control_map : NodeMap
control_map = ("control", 1) ∷ []

abbrev own_name : String → String
own_name n = n

drain-merge_it_example :
    drain own_name 5 (merge_it own_name (some ("x" ∷ "control" ∷ [])) control_map)
    ≡ visible own_name control_map ("x" ∷ "control" ∷ []) ++ mounted own_name control_map
drain-merge_it_example =
    drain-merge_it own_name (some ("x" ∷ "control" ∷ [])) 5 control_map (omega arith)

-- A file system that has every file and refuses every copy.
abbrev full : Operations (List String) String
full = record {
  get = λ p. pure (some "file");
  create_node = λ p d. pure (create_success, some "file");
  remove_node = λ p w. ok remove_success [];
  rename_node = λ p q. pure tt;
  replace_node = λ p n. throw (system_error eacces "");
  insert_node = λ p n. throw (system_error eacces "");
}

abbrev fulls : FsPtr → Operations (List String) String
fulls f = full

abbrev node_of : MountPtr → String
node_of p = "mount"

main_route : get_fs gate ("/" ∷ "y" ∷ []) ≡ some (7, "/" ∷ "y" ∷ [])
unfolding get_fs mount_child nat_eq string_eq
main_route = refl

gate-Apart :
    Apart fulls node_of gate
      ("/" ∷ "control" ∷ "x" ∷ [])
      ("/" ∷ "y" ∷ [])
      8
      7
      ("/" ∷ "x" ∷ [])
      ("/" ∷ "y" ∷ [])
gate-Apart = record { from_route = control_route; to_route = main_route; others = λ h. omega arith }

-- The file of the control directory is in the list, and copies are refused.
abbrev HasFile : List String → Type 0
HasFile w = w ≡ "file" ∷ []

fulls-KeptByCopies : KeptByCopies fulls node_of HasFile
fulls-KeptByCopies = record {
  by_get = λ f p s i. i;
  by_replace = λ f p n s i. i;
  by_insert = λ f p n s i. i;
}

joined_rename-Careful_example :
    Careful fulls node_of gate
      ("/" ∷ "control" ∷ "x" ∷ [])
      ("/" ∷ "y" ∷ [])
      8
      7
      ("/" ∷ "x" ∷ [])
      ("/" ∷ "y" ∷ [])
      HasFile
      (joined_rename fulls node_of
        (some gate)
        ("/" ∷ "control" ∷ "x" ∷ [])
        ("/" ∷ "y" ∷ [])
        ("file" ∷ []))
joined_rename-Careful_example =
    joined_rename-Careful fulls node_of gate ("/" ∷ "control" ∷ "x" ∷ []) ("/" ∷ "y" ∷ []) 8 7
      ("/" ∷ "x" ∷ []) ("/" ∷ "y" ∷ []) HasFile fulls-KeptByCopies ("file" ∷ []) gate-Apart refl
