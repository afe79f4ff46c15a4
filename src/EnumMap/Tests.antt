-- ===== src/EnumMap/Tests.antt =====
-- The types of properties, as a table (src/control/types/IPropertyType.cpp), and one in which a name
-- begins as another does.
use gd2fuse.Base.{◌≡◌, refl, some, [], ◌∷◌, ◌++◌, arith, nat_eq, codes, tolower, is_space}
use gd2fuse.EnumMap.{EnumMap, good, string_to_enum, to_string, to_enum, read}
use gd2fuse.EnumMap.Table.{string_to_enum-to_string}
use gd2fuse.EnumMap.Steps.{visit, visit-begin}
use gd2fuse.EnumMap.Reading.{WordRead, read-word}

abbrev types : EnumMap
types =
    record { value = 0; str = codes "ENUM" }
    ∷ record { value = 1; str = codes "UINT" }
    ∷ record { value = 2; str = codes "OINT" }
    ∷ []

string_to_enum-to_string_example :
    (to_enum types 1 ≡ some 1)
    × (to_string types 1 ≡ some (some (codes "UINT")))
    × (string_to_enum types (some (codes "uInt")) ≡ some 1)
unfolding tolower
string_to_enum-to_string_example =
    string_to_enum-to_string types 1 (codes "uInt") (omega arith)
      (((λ h. ground arith), ((λ h. ground arith), tt)), (((λ h. ground arith), tt), (tt, tt))) refl
      refl

visit-begin_example : visit 4 types 0 ≡ some (0 ∷ 1 ∷ 2 ∷ [])
visit-begin_example = visit-begin types (omega arith) (omega arith) refl

read-word_example :
    WordRead types (codes "bool") (codes " x") (read types 0 (good (codes "bool" ++ codes " x")))
unfolding is_space nat_eq
read-word_example =
    read-word types 0 (codes "bool") 32 (codes "x") (λ h. cc) (ground arith) (ground arith) refl
