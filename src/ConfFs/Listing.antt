-- ===== src/ConfFs/Listing.antt =====
-- The files of the directory, and the paths that lead to them.
use mathlib.Core.Option
use gd2fuse.Base.{
  ℕ, zero, suc, ◌<◌, ◌≡◌, ◌≢◌, refl, Option, none, some, List, [], ◌∷◌, ◌==◌, nat_eq, string_eq,
  list_eq, if◌then◌else◌, arith, Text, codes, length, map, Bool-cases, inl, inr, ==_false, ==_true,
}
use gd2fuse.FilePath.{Elements, root_path, filename}
use gd2fuse.Node.{Timespec}
use gd2fuse.Property.{Property, Store}
use gd2fuse.Configuration.{PropertyIterator, PropertiesList}
use gd2fuse.Configuration.Chained.{Yields, ended, handed, contents, HasUpstream, properties-Yields}
use gd2fuse.ConfFs.{PropNode, prop_node}
use gd2fuse.ConfFs.Root.{
  prop_nodes, PropRootNode, prop_root_node, node_named, root_node, prop_file, get,
}

module _ (start : Timespec) (st : Store) where
  abbrev pub nodes : List Property → List PropNode
  nodes ps = map (λ p. prop_node start p st) ps

  nodes-Yields :
      {it : PropertyIterator} {ps : List Property} (k : ℕ)
      → Yields it ps
      → length ps < k
      → prop_nodes start k it st ≡ some (nodes ps)
  unfolding prop_nodes
  nodes-Yields zero y h = absurd (omega arith)
  nodes-Yields (suc k) (ended e) h = rw (e, prop_nodes) refl
  nodes-Yields (suc k) (handed e n y) h = rw (e, n, nodes-Yields k y (omega arith), prop_nodes) refl

  pub first_named : List Property → Text → Option Property
  first_named [] name = none
  first_named (p ∷ ps) name = if p.upstream.p.name == name then some p else first_named ps name

  node_named-nodes :
      (ps : List Property) (name : Text)
      → node_named (nodes ps) name ≡ Option.map (λ p. prop_node start p st) (first_named ps name)
  unfolding node_named first_named prop_node
  node_named-nodes [] name = refl
  node_named-nodes (p ∷ ps) name = elim (Bool-cases (p.upstream.p.name == name)) [
    | inl e ↦ rw e refl
    | inr e ↦ rw e (node_named-nodes ps name)
  ]

  -- The root directory that is made of a configuration's list has a file for each property, upstream
  -- ones first; a path other than the root leads to the first property with the name of the path's
  -- last element, and to nothing if there is none: the directories in front of that name do not
  -- matter. Each chain in the list has a property upstream, and there are more rounds than properties.
  pub prop_root_node-get :
      (l : PropertiesList) (k : ℕ) (path : Elements)
      → HasUpstream l
      → length (contents l) < k
      → path ≢ root_path
      → (r : PropRootNode) × (prop_root_node start k l st ≡ some r)
        × (r.props ≡ nodes (contents l))
        × (get r root_path ≡ some root_node)
        × (get r path
            ≡ Option.map
                (λ p. prop_file (prop_node start p st))
                (first_named (contents l) (codes (filename path))))
  unfolding prop_root_node get
  prop_root_node-get l k path h enough differ =
      let listed = nodes-Yields k (properties-Yields l h) enough in
      (
        record { props = nodes (contents l); last_access = start },
        rw listed refl,
        refl,
        rw (==_true root_path root_path refl) refl,
        rw (==_false path root_path differ) (
            rw (node_named-nodes (contents l) (codes (filename path)))
              (map-map (first_named (contents l) (codes (filename path))))),
      )
    where
      map-map :
          (o : Option Property)
          → Option.map prop_file (Option.map (λ p. prop_node start p st) o)
            ≡ Option.map (λ p. prop_file (prop_node start p st)) o
      map-map none = refl
      map-map (some p) = refl
