-- ===== src/Cache/Tests.antt =====
-- Concrete runs of the node cache.
use gd2fuse.Base.{refl, [], ◌∷◌, String, inl, nat_eq, string_eq, list_eq, if◌then◌else◌, ◌==◌}
use gd2fuse.Base.Dict.{lookup}
use gd2fuse.FilePath.{Elements}
use gd2fuse.Cache.{Ptr, empty, add, slot_node_removed}
use gd2fuse.Cache.Coherence.{
  IsCoherent, Forgets, empty-IsCoherent, add-IsCoherent, slot_node_removed-Forgets,
}

abbrev ids : Ptr → String
ids p = if p == 3 then "f" else "other"

abbrev path_f : Elements
path_f = "/" ∷ "f" ∷ []

add-IsCoherent_example : IsCoherent ids (add path_f (ids 3) 3 empty)
unfolding lookup
add-IsCoherent_example = add-IsCoherent ids empty (empty-IsCoherent ids) path_f 3 (inl refl)

added : IsCoherent ids (add path_f (ids 3) 3 empty)
unfolding lookup
added = add-IsCoherent ids empty (empty-IsCoherent ids) path_f 3 (inl refl)

slot_node_removed-Forgets_example :
    Forgets ids 3
      (add path_f (ids 3) 3 empty)
      (slot_node_removed 3 (ids 3) (add path_f (ids 3) 3 empty))
slot_node_removed-Forgets_example =
    slot_node_removed-Forgets ids (add path_f (ids 3) 3 empty) added 3
