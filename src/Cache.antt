-- ===== src/Cache.antt =====
-- The node cache, src/cache/Cache.h and Cache.cpp. Nodes are pointers; the slots that the notifier
-- calls are given a node's pointer with the id that it has at the call.
pub mod Coherence
mod Tests
use gd2fuse.Base.{ℕ, String, Option, none, some, [], nat_eq, string_eq, list_eq, if◌then◌else◌}
use gd2fuse.Base.Dict.{Dict, lookup, insert, erase}
use gd2fuse.FilePath.{Elements}

abbrev pub Ptr : Type 0
Ptr = ℕ

pub record Cache : Type 0 where
  pub path_nodes : Dict Elements Ptr
  pub id_nodes : Dict String Ptr
  pub nodes : Dict Ptr Elements

abbrev pub empty : Cache
empty = record { path_nodes = []; id_nodes = []; nodes = [] }

unfoldable pub find_by_path : Elements → Cache → Option Ptr
find_by_path path c = lookup path c.path_nodes

unfoldable pub find_by_id : String → Cache → Option Ptr
find_by_id id c = lookup id c.id_nodes

unfoldable pub add : Elements → String → Ptr → Cache → Cache
add path id node c = record {
  path_nodes = insert path node c.path_nodes;
  id_nodes = insert id node c.id_nodes;
  nodes = insert node path c.nodes;
}

-- `find` and `erase` of an entry that is there; `erase` of an absent key changes nothing.
unfoldable pub slot_node_removed : Ptr → String → Cache → Cache
slot_node_removed node id c = elim (lookup node c.nodes) [
  | none ↦ c
  | some path ↦ record {
    path_nodes = erase path c.path_nodes;
    id_nodes = erase id c.id_nodes;
    nodes = erase node c.nodes;
  }
]

unfoldable pub slot_node_changed : Ptr → String → ℕ → Cache → Cache
unfolding slot_node_removed
slot_node_changed node id fields c = slot_node_removed node id c
