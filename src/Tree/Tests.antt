-- ===== src/Tree/Tests.antt =====
-- Concrete runs of AbstractFileSystem.
use mathlib.Core.Path.{subst}
use gd2fuse.Base.{
  zero, suc, true, false, ◌≡◌, ◌≢◌, refl, Option, none, some, [], ◌∷◌, ◌==◌, nat_eq, string_eq,
  list_eq, if◌then◌else◌, arith, inr,
}
use gd2fuse.Base.Dict.{lookup, insert}
use gd2fuse.Cache.{Ptr, find_by_path, empty, add, slot_node_changed}
use gd2fuse.FilePath.{Elements}
use gd2fuse.Node.{Node, is_folder}
use gd2fuse.Outcome.{ok, threw}
use gd2fuse.Tree.{Fs}
use gd2fuse.Tree.Heap.{resolve, child_named}
use gd2fuse.Tree.Lookup.{get, fill_dir}
use gd2fuse.Tree.Lookup.Get.{Misses, get-resolved, get-unresolved}
use gd2fuse.Tree.Lookup.Fill.{Listed, fill_dir-Listed}
use gd2fuse.Tree.Change.{remove_one}
use gd2fuse.Tree.Change.CreateNode.{Outcomes, create_node-Outcomes}
use gd2fuse.Tree.Change.Remove.{IsLeaf, removed, remove_one-leaf, remove_one-failed}
use gd2fuse.Tree.Rename.{move}
use gd2fuse.Tree.Rename.Move.{Moves, Moved, move-Moved, move-stale}
use gd2fuse.Tree.Samples.{
  meta_of, cloud, refusal, refusing_cloud, folder, note, small_heap, small, small-IsClosed,
  small-IsWhole, cloud-Accepts,
}

abbrev path_f : Elements
path_f = "a" ∷ "f" ∷ []

small-Misses : (path : Elements) → path ≢ "/" ∷ [] → Misses small 0 path
unfolding find_by_path lookup
small-Misses path ne = record {
  closed = small-IsClosed;
  rooted = refl;
  alive = λ h. cc;
  not_root = ne;
  uncached = refl;
}

small-resolve : resolve small_heap 0 path_f ≡ some 3
unfolding resolve child_named string_eq
small-resolve = refl

get-resolved_example :
    get cloud ("/" ∷ path_f) small
    ≡ ok (some 3) (record small { cache = add ("/" ∷ path_f) "f" 3 empty })
get-resolved_example =
    get-resolved cloud small 0 "/" path_f 3 note (small-Misses ("/" ∷ path_f) (λ h. cc))
      small-resolve refl

abbrev FilledOrFile : Option Node → Type 0
FilledOrFile none = Unit
FilledOrFile (some n) = is_folder n ≡ true → n.dir_filled ≡ true

small-filled : (p : Ptr) → FilledOrFile (small_heap p)
small-filled zero = λ h. refl
small-filled (suc zero) = λ h. refl
small-filled (suc (suc zero)) = λ h. refl
small-filled (suc (suc (suc zero))) = λ h. cc
small-filled (suc (suc (suc (suc p)))) = tt

-- Nothing lies below the note, which is a file and not filled.
get-unresolved_example : get cloud ("/" ∷ "a" ∷ "f" ∷ "z" ∷ []) small ≡ ok none small
unfolding resolve child_named string_eq
get-unresolved_example =
    get-unresolved cloud small 0 "/" ("a" ∷ "f" ∷ "z" ∷ [])
      (small-Misses ("/" ∷ "a" ∷ "f" ∷ "z" ∷ []) (λ h. cc))
      (λ p n here. subst FilledOrFile here (small-filled p)) refl

-- A directory that is not filled yet.
abbrev unfilled : Node
unfilled = record (folder none "d" []) { dir_filled = false }

abbrev unfilled_tree : Fs (Unit {0})
unfilled_tree = record small { heap = λ p. if p == 0 then some unfilled else none; fresh = 1 }

fill_dir-Listed_example :
    (t : Fs (Unit {0})) × (fill_dir cloud 0 unfilled_tree ≡ ok tt t)
    × Listed 0 meta_of unfilled_tree t unfilled ("x" ∷ "y" ∷ [])
unfolding nat_eq
fill_dir-Listed_example =
    fill_dir-Listed 0 meta_of cloud unfilled_tree unfilled ("x" ∷ "y" ∷ []) refl refl refl
      (omega arith) refl (refl, (refl, tt))

create_node-Outcomes_example : Outcomes cloud small 0 ("/" ∷ "b" ∷ "c" ∷ []) ("b" ∷ "c" ∷ []) false
create_node-Outcomes_example =
    create_node-Outcomes cloud cloud-Accepts small 0 small-IsWhole "/" ("b" ∷ "c" ∷ []) false

abbrev dir_a : Node
dir_a = folder (some 0) "a" (3 ∷ [])

abbrev dir_b : Node
dir_b = folder (some 0) "b" []

note-IsLeaf : IsLeaf small 1 3 dir_a note
unfolding nat_eq
note-IsLeaf = record {
  parent = refl;
  here = refl;
  no_children = refl;
  listed = refl;
  apart = λ h. omega arith;
  fuel = 3;
  allocated = refl;
}

remove_one-leaf_example :
    remove_one cloud 1 3 small ≡ ok tt (removed cloud small 1 3 dir_a note note-IsLeaf tt)
remove_one-leaf_example =
    remove_one-leaf cloud small 1 3 dir_a note note-IsLeaf tt tt true refl (inr (refl, refl))

remove_one-failed_example :
    (s' : Fs (Unit {0})) × (remove_one refusing_cloud 1 3 small ≡ threw refusal s')
    × (s'.cache ≡ empty)
    × ((q : Ptr) → s'.heap q ≡ small_heap q)
remove_one-failed_example =
    remove_one-failed refusing_cloud small 1 3 dir_a note note-IsLeaf refusal tt refl

-- The path of the note, and of a second one, are in the cache.
abbrev cached : Fs (Unit {0})
cached = record small { cache = add ("/" ∷ path_f) "f" 3 empty }

cached-Moves :
    (s : Fs (Unit {0}))
    → s.heap ≡ small_heap
    → Moves s 0 2 1 (folder none "/" (1 ∷ 2 ∷ [])) dir_b dir_a
unfolding nat_eq
cached-Moves s same = record {
  source = rw same;
  target = rw same;
  here = rw same;
  listed = refl;
  unlisted = refl;
  other = λ h. omega arith;
  apart = λ h. omega arith;
  apart' = λ h. omega arith;
}

move-Moved_example :
    (t : Fs (Unit {0})) × (move cloud 1 0 2 none "c" cached ≡ ok tt t)
    × Moved small_heap t.heap 0 2 1 (folder none "/" (1 ∷ 2 ∷ [])) dir_b dir_a "c"
    × (t.cache ≡ slot_node_changed 1 "a" 3 cached.cache)
    × (t.world ≡ tt)
move-Moved_example =
    move-Moved cloud cached 0 2 1 (folder none "/" (1 ∷ 2 ∷ [])) dir_b dir_a "c"
      (cached-Moves cached refl) tt refl

move-stale_example :
    (t : Fs (Unit {0})) × (move cloud 1 0 2 none "c" cached ≡ ok tt t)
    × (get cloud ("/" ∷ path_f) t ≡ ok (some 3) t)
unfolding find_by_path lookup insert add string_eq list_eq nat_eq
move-stale_example =
    move-stale cloud cached 0 2 1 (folder none "/" (1 ∷ 2 ∷ [])) dir_b dir_a "c"
      (cached-Moves cached refl) tt ("/" ∷ path_f) 3 refl (λ h. cc) refl (λ h. cc)
