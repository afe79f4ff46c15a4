-- ===== src/FilePath/Laws.antt =====
-- fromPathIt.
use mathlib.Core.List.{append_assoc}
use gd2fuse.Base.{◌≡◌, ◌∙◌, [], ◌∷◌, ◌++◌}
use gd2fuse.FilePath.{Elements, ◌/=◌, from_loop, from_path_it}

from_loop-append : (ret it : Elements) → from_loop ret it ≡ ret ++ it
unfolding from_loop
from_loop-append ret [] = simp mathlib.Core.List.append-nil
from_loop-append ret (e ∷ it) = from_loop-append (ret /= e) it ∙ rw append_assoc

-- fromPathIt of a range of elements is the path of these elements.
pub from_path_it_lem : (it : Elements) → from_path_it it ≡ it
unfolding from_path_it
from_path_it_lem it = from_loop-append [] it
