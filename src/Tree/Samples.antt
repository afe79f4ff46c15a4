-- ===== src/Tree/Samples.antt =====
-- Data for concrete runs of AbstractFileSystem: a small tree, a cloud that accepts all and one that
-- refuses.
use mathlib.Core.Path.{subst}
use gd2fuse.Base.{
  zero, suc, ◌<◌, String, true, false, ◌≢◌, refl, Option, none, some, List, [], ◌∷◌, nat_eq,
  string_eq, list_eq, arith, All,
}
use gd2fuse.Errno.{eacces}
use gd2fuse.Cache.{Ptr, empty}
use gd2fuse.Node.{Timespec, Node, Meta, new_node, directory, binary, zero_time}
use gd2fuse.Outcome.{Error, system_error}
use gd2fuse.Tree.{Heap, Backend, Fs, done, failed}
use gd2fuse.Tree.Heap.{IsClosed}
use gd2fuse.Tree.Change.Create.{Accepts}
use gd2fuse.Tree.Change.CreateNode.{IsBounded, IsWhole}

abbrev pub meta_of : String → Meta
meta_of id = record {
  id = id;
  name = id;
  file_type = binary;
  size = 0;
  md5 = none;
  last_access = zero_time;
  last_modification = zero_time;
  last_change = zero_time;
}

abbrev pub noon : Timespec
noon = record { tv_sec = 43200; tv_nsec = 0 }

-- A cloud that accepts all, over any state of the world.
abbrev pub cloud_over : Type 0 → Backend
cloud_over W = record {
  World = W;
  fetch_meta = λ id w. done (meta_of id) w;
  fetch_children = λ id w. done ("x" ∷ "y" ∷ []) w;
  create_meta = λ name parent d w. done (meta_of name) w;
  update = λ id fields name parent w. done tt w;
  update_media = λ id bytes w. done tt w;
  remove = λ id w. done tt w;
  read_media = λ id w. done [] w;
  content_is = λ id w. done false w;
  content_create = λ id bytes w. done tt w;
  content_read = λ id w. done [] w;
  content_delete = λ id w. done true w;
  content_open = λ id flags w. done 0 w;
  content_truncate = λ id h n w. done tt w;
}

abbrev pub cloud : Backend
cloud = cloud_over (Unit {0})

abbrev pub refusal : Error
refusal = system_error eacces "refused"

abbrev pub refusing_cloud : Backend
refusing_cloud = record cloud { remove = λ id w. failed refusal w }

abbrev pub folder : Option Ptr → String → List Ptr → Node
folder parent name next = record (new_node parent) {
  dir_filled = true;
  next = next;
  id = name;
  name = name;
  file_type = directory;
}

abbrev pub note : Node
note = record (new_node (some 1)) { id = "f"; name = "f"; size = 3 }

-- `/a/f` and `/b`
abbrev pub small_heap : Heap
small_heap zero = some (folder none "/" (1 ∷ 2 ∷ []))
small_heap (suc zero) = some (folder (some 0) "a" (3 ∷ []))
small_heap (suc (suc zero)) = some (folder (some 0) "b" [])
small_heap (suc (suc (suc zero))) = some note
small_heap (suc (suc (suc (suc p)))) = none

abbrev pub small : Fs (Unit {0})
small = record { heap = small_heap; fresh = 4; root = some 0; cache = empty; world = tt }

-- What is checked of each address, whether it is allocated or not.
abbrev pub Checks : Ptr → Option Node → Type 0
Checks p none = Unit
Checks p (some n) = All (λ c. small_heap c ≢ none) n.next × (p < 4) × All (λ c. c < 4) n.next

pub small-Checks : (p : Ptr) → Checks p (small_heap p)
small-Checks zero = (((λ h. cc), ((λ h. cc), tt)), omega arith, (omega arith, (omega arith, tt)))
small-Checks (suc zero) = (((λ h. cc), tt), omega arith, (omega arith, tt))
small-Checks (suc (suc zero)) = (tt, omega arith, tt)
small-Checks (suc (suc (suc zero))) = (tt, omega arith, tt)
small-Checks (suc (suc (suc (suc p)))) = tt

pub small-IsClosed : IsClosed small_heap
small-IsClosed p n here = (subst (Checks p) here (small-Checks p)).0

pub small-IsBounded : IsBounded small
small-IsBounded p n here = let c = subst (Checks p) here (small-Checks p) in (c.1, c.2)

pub small-IsWhole : IsWhole small 0
small-IsWhole = record {
  rooted = refl;
  alive = λ h. cc;
  closed = small-IsClosed;
  bounded = small-IsBounded;
}

pub cloud-Accepts : Accepts cloud
cloud-Accepts = record {
  reply = λ name parent d w. meta_of name;
  after = λ name parent d w. w;
  accepts = λ name parent d w. refl;
  named = λ name parent d w. refl;
}
