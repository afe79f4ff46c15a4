-- ===== src/FilePath.antt =====
-- Paths (boost::filesystem::path) as the sequence of elements that their iterators give: `/a/b` is
-- `"/"`, `"a"`, `"b"`. An iterator pair is the list that it spans, and `++it` drops an element.
-- Also fromPathIt of src/utils/assets.cpp.
pub mod Laws
use gd2fuse.Base.{
  String, ◌≡◌, refl, Bool, true, false, Option, none, some, List, [], ◌∷◌, ◌++◌, ◌==◌, nat_eq,
  if◌then◌else◌,
}

-- The type shares no name with the module, so that clients can bring in both.
abbrev pub Elements : Type 0
Elements = List String

abbrev pub root_path : Elements
root_path = "/" ∷ []

-- `++it` at the start of a path
abbrev pub skip_root : Elements → Elements
skip_root [] = []
skip_root (_ ∷ rest) = rest

-- `p /= q`, where `q` is a single element
infixl 60 ◌/=◌
abbrev pub ◌/=◌ : Elements → String → Elements
p /= q = p ++ q ∷ []

from_loop : Elements → Elements → Elements
from_loop ret [] = ret
from_loop ret (e ∷ it) = from_loop (ret /= e) it

unfoldable pub from_path_it : Elements → Elements
unfolding from_loop
from_path_it it = from_loop [] it

unfoldable pub parent_path : Elements → Elements
parent_path [] = []
parent_path (e ∷ []) = []
parent_path (e ∷ f ∷ rest) = e ∷ parent_path (f ∷ rest)

unfoldable pub filename : Elements → String
filename [] = ""
filename (e ∷ []) = e
filename (e ∷ f ∷ rest) = filename (f ∷ rest)
