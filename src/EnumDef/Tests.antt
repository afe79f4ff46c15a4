-- ===== src/EnumDef/Tests.antt =====
-- The values of the property "erase_policy" (src/control/Configuration.cpp).
use gd2fuse.Base.{◌≡◌, refl, ◌↔◌, Bool, true, some, List, [], ◌∷◌, codes, nat_eq}
use gd2fuse.EnumDef.{EnumEntry, enum_def, is, less}
use gd2fuse.EnumDef.Order.{Listed}
use gd2fuse.EnumDef.Search.{is-enum_def}

abbrev erase_policy : List EnumEntry
erase_policy =
    record { entry = codes "trash"; description = codes "Delete to trash." }
    ∷ record { entry = codes "forever"; description = codes "Final deletion." }
    ∷ []

is-enum_def_example :
    (b : Bool) × (is (enum_def erase_policy) (codes "trash") ≡ some b)
    × ((b ≡ true) ↔ Listed (codes "trash") erase_policy)
is-enum_def_example = is-enum_def erase_policy (codes "trash")

is_trash : is (enum_def erase_policy) (codes "trash") ≡ some true
unfolding is enum_def less nat_eq
is_trash = refl
