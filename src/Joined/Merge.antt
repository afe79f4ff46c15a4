-- ===== src/Joined/Merge.antt =====
-- JoinedNode::MergeIt of src/fs/JoinedFileSystem.cpp: the listing of a directory that has mount
-- points. The order of the mounts by path is `std::map`'s; `less` is the order of the library's
-- paths, which is not modelled.
use gd2fuse.Base.{
  ℕ, zero, suc, ◌+◌, ◌<◌, String, ◌≡◌, refl, ◌∙◌, Bool, true, false, Option, none, some, List, [],
  ◌∷◌, ◌++◌, ◌==◌, string_eq, nat_eq, if◌then◌else◌, arith, length, ap, inl, inr, Bool-cases,
}
use gd2fuse.Joined.{MountPtr}

-- An INode of the listing: one of the mounted file system's nodes, with its name, or a mount.
pub data Entry (N : Type 0) : Type 0 where
  inner : N → Entry N
  joined : MountPtr → Entry N

abbrev pub NodeMap : Type 0
NodeMap = List (String × MountPtr)

module _ (less : String → String → Bool) where
  -- `std::map::insert`: an entry whose key is there already is left out
  unfoldable pub map_insert : String → MountPtr → NodeMap → NodeMap
  map_insert k p [] = (k, p) ∷ []
  map_insert k p ((j, q) ∷ m) =
      if k == j
      then (j, q) ∷ m
      else if less k j
      then (k, p) ∷ (j, q) ∷ m
      else (j, q) ∷ map_insert k p m

-- `_mounts.count(name)`
abbrev pub is_mount : NodeMap → String → Bool
is_mount [] k = false
is_mount ((j, _) ∷ m) k = if k == j then true else is_mount m k

module _ {N : Type 0} (name : N → String) where
  pub record MergeIt : Type 0 where
    pub next : List N
    pub mounts : NodeMap
    pub it : NodeMap
    pub mode : ℕ
    pub res : Option (Entry N)

  -- the loop of `_readNext` in mode 2: the node that it stops at, and what is left behind it
  skip_mounts : NodeMap → List N → Option (N × List N)
  skip_mounts m [] = none
  skip_mounts m (n ∷ ns) =
      let rest = skip_mounts m ns in if is_mount m (name n) then rest else some (n, ns)

  read_mounts : MergeIt → MergeIt
  read_mounts s = elim s.it [
    | [] ↦ record s { mode = 0; res = none }
    | (k, p) ∷ it ↦ record s { it = it; res = some (joined p) }
  ]

  unfoldable pub read_next : MergeIt → MergeIt
  unfolding skip_mounts read_mounts
  read_next s =
      if s.mode == 2
      then elim (skip_mounts s.mounts s.next) [
        | some (n, ns) ↦ record s { next = ns; res = some (inner n) }
        | none ↦ read_mounts (record s { next = []; mode = 1 })
      ]
      else if s.mode == 1
      then read_mounts s
      else record s { res = none }

  -- The constructor. Without a listing of the file system (a null iterator) it starts at the mounts.
  unfoldable pub merge_it : Option (List N) → NodeMap → MergeIt
  unfolding read_next
  merge_it none m = read_next (record { next = []; mounts = m; it = m; mode = 1; res = none })
  merge_it (some ns) m = read_next (record { next = ns; mounts = m; it = m; mode = 2; res = none })

  -- `while(it->hasNext()) it->next()`, for a number of rounds: the nodes that are handed out
  unfoldable pub drain : ℕ → MergeIt → List (Entry N)
  unfolding read_next
  drain zero s = []
  drain (suc k) s = elim s.res [ none ↦ [] | some e ↦ e ∷ drain k (read_next s) ]

  -- What the listing is to be: the file system's nodes whose names are no mounts, then the mounts.
  abbrev pub visible : NodeMap → List N → List (Entry N)
  visible m [] = []
  visible m (n ∷ ns) =
      let rest = visible m ns in if is_mount m (name n) then rest else inner n ∷ rest

  abbrev pub mounted : NodeMap → List (Entry N)
  mounted [] = []
  mounted ((_, p) ∷ m) = joined p ∷ mounted m

  drain-mounts :
      (it : NodeMap) (k : ℕ) (ns : List N) (m : NodeMap) (res : Option (Entry N))
      → length it < k
      → drain k (read_mounts (record { next = ns; mounts = m; it = it; mode = 1; res = res }))
        ≡ mounted it
  unfolding drain read_mounts nat_eq
  drain-mounts [] (suc k) ns m res h = refl
  drain-mounts ((j, p) ∷ it) (suc k) ns m res h =
      ap (◌∷◌ (joined p)) (drain-mounts it k ns m (some (joined p)) (omega arith))
  drain-mounts it zero ns m res h = absurd (omega arith)

  abbrev phase2 : NodeMap → List N → Option (Entry N) → MergeIt
  phase2 m ns res = record { next = ns; mounts = m; it = m; mode = 2; res = res }

  abbrev nodes_of : Option (List N) → List N
  nodes_of none = []
  nodes_of (some ns) = ns

  drain-empty :
      (k : ℕ) (m : NodeMap) (res : Option (Entry N))
      → length m < k
      → drain k (read_next (phase2 m [] res)) ≡ mounted m
  unfolding read_next nat_eq
  drain-empty k m res h = drain-mounts m k [] m res h

  drain-mode1 :
      (k : ℕ) (m : NodeMap)
      → length m < k
      → drain k (read_next (record { next = []; mounts = m; it = m; mode = 1; res = none }))
        ≡ mounted m
  unfolding read_next nat_eq
  drain-mode1 k m h = drain-mounts m k [] m none h

  drain-inner :
      (k : ℕ) (n : N) (ns : List N) (m : NodeMap)
      → drain (suc k) (phase2 m ns (some (inner n)))
        ≡ inner n ∷ drain k (read_next (phase2 m ns (some (inner n))))
  unfolding drain
  drain-inner k n ns m = refl

  read-hidden :
      (n : N) (ns : List N) (m : NodeMap) (res : Option (Entry N))
      → is_mount m (name n) ≡ true
      → read_next (phase2 m (n ∷ ns) res) ≡ read_next (phase2 m ns res)
  unfolding read_next nat_eq
  read-hidden n ns m res hidden = rw (hidden, skip_mounts)

  read-shown :
      (n : N) (ns : List N) (m : NodeMap) (res : Option (Entry N))
      → is_mount m (name n) ≡ false
      → read_next (phase2 m (n ∷ ns) res) ≡ phase2 m ns (some (inner n))
  unfolding read_next nat_eq
  read-shown n ns m res shown = rw (shown, skip_mounts)

  drain-nodes :
      (ns : List N) (k : ℕ) (m : NodeMap) (res : Option (Entry N))
      → length ns + length m < k
      → drain k (read_next (phase2 m ns res)) ≡ visible m ns ++ mounted m
  drain-nodes [] k m res h = drain-empty k m res (omega arith)
  drain-nodes (n ∷ ns) zero m res h = absurd (omega arith)
  drain-nodes (n ∷ ns) (suc k) m res h = elim (Bool-cases (is_mount m (name n))) [
    | inl hidden ↦
        ap (drain (suc k)) (read-hidden n ns m res hidden)
        ∙ drain-nodes ns (suc k) m res (omega arith)
        ∙ rw hidden
    | inr shown ↦
        ap (drain (suc k)) (read-shown n ns m res shown)
        ∙ drain-inner k n ns m
        ∙ ap (◌∷◌ (inner n)) (drain-nodes ns k m (some (inner n)) (omega arith))
        ∙ rw shown
  ]

  -- With enough rounds, the iterator hands out the file system's nodes whose names are no mounts, in
  -- their order and each once, and after them every mount in the order of the map; without a
  -- listing of the file system it hands out the mounts alone.
  pub drain-merge_it :
      (listing : Option (List N)) (k : ℕ) (m : NodeMap)
      → length (nodes_of listing) + length m < k
      → drain k (merge_it listing m) ≡ visible m (nodes_of listing) ++ mounted m
  unfolding merge_it
  drain-merge_it none k m h = drain-mode1 k m (omega arith)
  drain-merge_it (some ns) k m h = drain-nodes ns k m none h
