-- ===== src/Content/Names.antt =====
-- id2fileName.
use gd2fuse.Base.{◌≡◌, refl, ap, sym, ◌∙◌, List, [], ◌∷◌}
use gd2fuse.Content.{Bytes, id2file_name}

-- What an id was, by its file name.
abbrev joined : List Bytes → Bytes
joined [] = []
joined (x ∷ []) = x
joined (x ∷ y ∷ []) = []
joined ((a ∷ _) ∷ (b ∷ _) ∷ z ∷ _) = a ∷ b ∷ z
joined (x ∷ y ∷ z ∷ _) = []

joined-id2file_name : (id : Bytes) → joined (id2file_name id) ≡ id
unfolding id2file_name
joined-id2file_name [] = refl
joined-id2file_name (a ∷ []) = refl
joined-id2file_name (a ∷ b ∷ []) = refl
joined-id2file_name (a ∷ b ∷ c ∷ rest) = refl

-- Two ids with one file name are the same id.
pub id2file_name-injective : (x y : Bytes) → id2file_name x ≡ id2file_name y → x ≡ y
id2file_name-injective x y same =
    sym (joined-id2file_name x) ∙ ap joined same ∙ joined-id2file_name y
