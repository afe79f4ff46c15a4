-- ===== src/Cache/Coherence.antt =====
-- The agreement of the cache's three maps, under insertion and under the slots.
use gd2fuse.Base.{
  String, Option-cases, ◌≡◌, refl, ◌≢◌, ◌⊎◌, inl, inr, none, some, arith, nat_eq, string_eq,
  list_eq,
}
use gd2fuse.Base.Dict.{lookup, erase, lookup-nil, lookup-insert, lookup-erase}
use gd2fuse.FilePath.{Elements}
use gd2fuse.Cache.{Ptr, Cache, empty, find_by_path, find_by_id, add, slot_node_removed}

-- A node is found by at most the one path under which it is recorded, and by an id only if it is
-- recorded; `ids` gives the id that each node has.
pub record IsCoherent (ids : Ptr → String) (c : Cache) : Type 0 where
  pub by_path :
      (path : Elements) (p : Ptr) → lookup path c.path_nodes ≡ some p → lookup p c.nodes ≡ some path
  pub by_id : (id : String) (p : Ptr) → lookup id c.id_nodes ≡ some p → ids p ≡ id
  pub recorded : (id : String) (p : Ptr) → lookup id c.id_nodes ≡ some p → lookup p c.nodes ≢ none

-- `c'` is `c` without the node: it is found by no path and no id, and all else is as before.
pub record Forgets (ids : Ptr → String) (node : Ptr) (c c' : Cache) : Type 0 where
  pub no_path : (path : Elements) → find_by_path path c' ≢ some node
  pub no_id : (id : String) → find_by_id id c' ≢ some node
  pub others :
      (path : Elements)
      → lookup node c.nodes ≢ some path
      → find_by_path path c' ≡ find_by_path path c
  pub coherent : IsCoherent ids c'

pub empty-IsCoherent : (ids : Ptr → String) → IsCoherent ids empty
empty-IsCoherent ids = record {
  by_path = λ path p h. grind (arith, lookup-nil);
  by_id = λ id p h. grind (arith, lookup-nil);
  recorded = λ id p h. grind (arith, lookup-nil);
}

module _ (ids : Ptr → String) (c : Cache) (v : IsCoherent ids c) where
  -- An insertion keeps the maps in agreement if the node is not recorded under another path and the
  -- id is the node's own.
  pub add-IsCoherent :
      (path : Elements) (node : Ptr)
      → (lookup node c.nodes ≡ none) ⊎ (lookup node c.nodes ≡ some path)
      → IsCoherent ids (add path (ids node) node c)
  unfolding add
  add-IsCoherent path node once = record {
    by_path = λ q p h. ground (
      arith,
      lookup-insert q path node c.path_nodes,
      lookup-insert p node path c.nodes,
      v.by_path q p,
      v.by_path q node,
    );
    by_id = λ id p h. ground (arith, lookup-insert id (ids node) node c.id_nodes, v.by_id id p);
    recorded = λ id p h. ground (
      arith,
      lookup-insert id (ids node) node c.id_nodes,
      lookup-insert p node path c.nodes,
      v.recorded id p,
    );
  }

  abbrev without : Ptr → Elements → Cache
  without node path = record {
    path_nodes = erase path c.path_nodes;
    id_nodes = erase (ids node) c.id_nodes;
    nodes = erase node c.nodes;
  }

  without-Forgets :
      (node : Ptr) (path : Elements)
      → lookup node c.nodes ≡ some path
      → Forgets ids node c (without node path)
  unfolding find_by_path find_by_id
  without-Forgets node path found = record {
    no_path = λ q h. ground (arith, lookup-erase q path c.path_nodes, v.by_path q node);
    no_id = λ id h. ground (arith, lookup-erase id (ids node) c.id_nodes, v.by_id id node);
    others = λ q other. ground (arith, lookup-erase q path c.path_nodes);
    coherent = record {
      by_path = λ q p h.
          ground
            (arith, lookup-erase q path c.path_nodes, lookup-erase p node c.nodes, v.by_path q p);
      by_id = λ id p h. ground (arith, lookup-erase id (ids node) c.id_nodes, v.by_id id p);
      recorded = λ id p h. ground (
        arith,
        lookup-erase id (ids node) c.id_nodes,
        lookup-erase p node c.nodes,
        v.by_id id p,
        v.recorded id p,
      );
    };
  }

  absent-Forgets : (node : Ptr) → lookup node c.nodes ≡ none → Forgets ids node c c
  unfolding find_by_path find_by_id
  absent-Forgets node absent = record {
    no_path = λ q h. ground (arith, v.by_path q node);
    no_id = λ id h. ground (arith, v.recorded id node);
    others = λ q other. refl;
    coherent = v;
  }

  -- After the slot has run for a node, with the id that it has, the cache no longer finds it by any
  -- path or id, answers as before for every path but the one recorded for the node, and its maps
  -- still agree.
  pub slot_node_removed-Forgets :
      (node : Ptr) → Forgets ids node c (slot_node_removed node (ids node) c)
  unfolding slot_node_removed
  slot_node_removed-Forgets node = elim (Option-cases (lookup node c.nodes)) [
    | inl absent ↦ rw (absent, slot_node_removed) (absent-Forgets node absent)
    | inr (path, found) ↦ rw (found, slot_node_removed) (without-Forgets node path found)
  ]

-- The slot leaves every path alone but the one recorded for the node.
pub slot_node_removed-others :
    (node : Ptr) (id : String) (c : Cache) (path : Elements)
    → lookup node c.nodes ≢ some path
    → find_by_path path (slot_node_removed node id c) ≡ find_by_path path c
unfolding slot_node_removed find_by_path
slot_node_removed-others node id c path other = elim (Option-cases (lookup node c.nodes)) [
  | inl absent ↦ rw (absent, slot_node_removed)
  | inr (q, found) ↦
      rw (found, slot_node_removed) (ground (arith, lookup-erase path q c.path_nodes))
]
