-- ===== src/Tree.antt =====
-- AbstractFileSystem (src/fs/AbstractFileSystem.h and .cpp): nodes on an explicit heap, the node
-- cache behind the notifier, and the operations that its subclasses implement, as an interface.
pub mod Heap
pub mod Memory
pub mod Freed
pub mod Lookup
pub mod Change
pub mod Rename
pub mod Content
pub mod Import
pub mod Samples
mod Tests
use gd2fuse.Base.{
  ℕ, suc, String, Bool, true, false, Option, none, some, List, [], ◌==◌, nat_eq, if◌then◌else◌,
}
use gd2fuse.Cache.{Ptr, Cache}
use gd2fuse.Node.{Node, Meta}
use gd2fuse.Outcome.{Error, Outcome, ok, threw, Cmd, pure, undefined, and_then, ◌>>=◌, ◌>>◌}

-- The answer of a call to the cloud or to the content manager, with the new state of the world.
pub data Answer (W A : Type 0) : Type 0 where
  done : A → W → Answer W A
  failed : Error → W → Answer W A

-- The pure virtual `cloud…` methods, and the methods of ContentManager that the nodes call.
pub record Backend : Type 1 where
  pub World : Type 0
  pub fetch_meta : String → World → Answer World Meta
  pub fetch_children : String → World → Answer World (List String)
  -- name, parent's id, whether it is a directory
  pub create_meta : String → String → Bool → World → Answer World Meta
  -- id, changed fields, name and parent's id
  pub update : String → ℕ → String → Option String → World → Answer World (Unit {0})
  pub update_media : String → List ℕ → World → Answer World (Unit {0})
  pub remove : String → World → Answer World (Unit {0})
  pub read_media : String → World → Answer World (List ℕ)
  pub content_is : String → World → Answer World Bool
  pub content_create : String → List ℕ → World → Answer World (Unit {0})
  pub content_read : String → World → Answer World (List ℕ)
  pub content_delete : String → World → Answer World Bool
  pub content_open : String → ℕ → World → Answer World ℕ
  pub content_truncate : String → ℕ → ℕ → World → Answer World (Unit {0})

abbrev pub Heap : Type 0
Heap = Ptr → Option Node

abbrev pub put : Heap → Ptr → Option Node → Heap
put h p c a = if a == p then c else h a

pub record Fs (W : Type 0) : Type 0 where
  pub heap : Heap
  pub fresh : Ptr
  pub root : Option Ptr
  pub cache : Cache
  pub world : W

module _ {W : Type 0} where
  abbrev pub get_fs : Cmd (Fs W) (Fs W)
  get_fs s = ok s s

  abbrev pub set_heap : Heap → Cmd (Fs W) (Unit {0})
  set_heap h s = ok tt (record s { heap = h })

  -- `*p`
  unfoldable pub load : Ptr → Cmd (Fs W) Node
  load p s = elim (s.heap p) [ none ↦ undefined s | some n ↦ ok n s ]

  -- a write through a pointer
  unfoldable pub store : Ptr → Node → Cmd (Fs W) (Unit {0})
  unfolding load
  store p n s = elim (s.heap p) [ none ↦ undefined s | some _ ↦ set_heap (put s.heap p (some n)) s ]

  -- `new Node`
  unfoldable pub alloc : Node → Cmd (Fs W) Ptr
  alloc n s = ok s.fresh (record s { heap = put s.heap s.fresh (some n); fresh = suc s.fresh })

  -- `delete`
  unfoldable pub free : Ptr → Cmd (Fs W) (Unit {0})
  free p s = elim (s.heap p) [ none ↦ undefined s | some _ ↦ set_heap (put s.heap p none) s ]

  abbrev pub on_cache : (Cache → Cache) → Cmd (Fs W) (Unit {0})
  on_cache f s = ok tt (record s { cache = f s.cache })

  abbrev answer : {A : Type 0} → Fs W → Answer W A → Outcome (Fs W) A
  answer s (done a w) = ok a (record s { world = w })
  answer s (failed e w) = threw e (record s { world = w })

  -- a call of the backend
  abbrev pub call : {A : Type 0} → (W → Answer W A) → Cmd (Fs W) A
  call f s = answer s (f s.world)
