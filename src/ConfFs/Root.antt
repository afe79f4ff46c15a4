-- ===== src/ConfFs/Root.antt =====
-- The root directory of the configuration's file system and the operations of
-- src/fs/ConfFileSystem.cpp's wrapper.
use mathlib.Core.Option
use gd2fuse.Base.{
  ℕ, zero, suc, Bool, true, false, Option, none, some, List, [], ◌∷◌, ◌==◌, nat_eq, string_eq,
  list_eq, if◌then◌else◌, Text, codes,
}
use gd2fuse.Errno.{eisdir, eperm}
use gd2fuse.FilePath.{Elements, root_path, filename}
use gd2fuse.FileSystem.{CreateStatus, create_forbidden, RemoveStatus, remove_forbidden}
use gd2fuse.Node.{Timespec, NodeType, directory, binary}
use gd2fuse.Outcome.{system_error, Cmd, throw}
use gd2fuse.Property.{Store}
use gd2fuse.Configuration.{PropertyIterator, has_next, next, PropertiesList, properties}
use gd2fuse.ConfFs.{PropNode, prop_node}

-- PropRootNode
pub record PropRootNode : Type 0 where
  pub props : List PropNode
  pub last_access : Timespec

abbrev pub push_node : PropNode → Option (List PropNode) → Option (List PropNode)
push_node n none = none
push_node n (some ns) = some (n ∷ ns)

-- the loop of the constructor, for a number of rounds; `none` is an undefined access or too few rounds
unfoldable pub prop_nodes : Timespec → ℕ → PropertyIterator → Store → Option (List PropNode)
unfolding prop_node
prop_nodes start zero it st = none
prop_nodes start (suc k) it st =
    let step = λ (n : PropNode) (it' : PropertyIterator). push_node n (prop_nodes start k it' st) in
    elim (has_next it) [
      | false ↦ some []
      | true ↦ elim (next it) [ none ↦ none | some (p, it') ↦ step (prop_node start p st) it' ]
    ]

unfoldable pub prop_root_node : Timespec → ℕ → PropertiesList → Store → Option PropRootNode
unfolding prop_nodes
prop_root_node start k l st =
    Option.map (λ ns. record { props = ns; last_access = start })
      (prop_nodes start k (properties l) st)

-- PropRootNode::get
unfoldable pub node_named : List PropNode → Text → Option PropNode
node_named [] name = none
node_named (n ∷ ns) name =
    let rest = node_named ns name in if n.p.upstream.p.name == name then some n else rest

-- getDirectoryIterator: the nodes, and the time of the access
unfoldable pub directory_iterator : Timespec → PropRootNode → List PropNode × PropRootNode
directory_iterator now r = (r.props, record r { last_access = now })

-- the root's `truncate`
abbrev pub root_truncate : ℕ → ℕ
root_truncate new_size = eisdir

-- INode of this file system
pub data ConfNode : Type 0 where
  root_node : ConfNode
  prop_file : PropNode → ConfNode

unfoldable pub node_type : ConfNode → NodeType
node_type root_node = directory
node_type (prop_file n) = binary

-- ConfigurationFSWrapper::get
unfoldable pub get : PropRootNode → Elements → Option ConfNode
unfolding node_named
get r p =
    if p == root_path
    then some root_node
    else Option.map prop_file (node_named r.props (codes (filename p)))

abbrev pub create_node : {N : Type 0} → Elements → Bool → CreateStatus × Option N
create_node p is_directory = (create_forbidden, none)

abbrev pub remove_node : Elements → RemoveStatus
remove_node p = remove_forbidden

abbrev pub rename_node : {W : Type 0} → Elements → Elements → Cmd W (Unit {0})
rename_node old_path new_path =
    throw (system_error eperm "It's impossible to rename entry in confFS")

abbrev pub replace_node : {W N : Type 0} → Elements → N → Cmd W (Unit {0})
replace_node path_to_replace on_this =
    throw (system_error eperm "It's impossible to replace entry in confFS")

abbrev pub insert_node : {W N : Type 0} → Elements → N → Cmd W (Unit {0})
insert_node parent_path that =
    throw (system_error eperm "It's impossible to insert entry in confFS")
