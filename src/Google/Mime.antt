-- ===== src/Google/Mime.antt =====
-- Types of nodes and their MIME types.
use gd2fuse.Base.{◌≡◌, ◌≢◌, refl, [], ◌∷◌, nat_eq, list_eq, arith, Text, All}
use gd2fuse.Node.{NodeType, directory, exported, binary, shortcut}
use gd2fuse.Google.{split_mime, get_mime_type, get_file_type, get_file_mime}

-- A MIME type is split at the slash into the pair that it was made of, if the first part has no slash.
pub split_mime-get_mime_type :
    (first second : Text)
    → All (λ c. c ≢ b'/') first
    → split_mime (get_mime_type (first, second)) ≡ (first, second)
unfolding split_mime get_mime_type nat_eq
split_mime-get_mime_type [] second h = ground arith
split_mime-get_mime_type (c ∷ first) second h =
    ground (arith, h.0, split_mime-get_mime_type first second h.1)

-- The type of a node that is sent to the cloud as a MIME type is read back from it: also for files,
-- whose MIME type is sent as the empty text.
pub get_file_type-get_file_mime : (t : NodeType) → get_file_type (split_mime (get_file_mime t)) ≡ t
unfolding get_file_type get_file_mime split_mime list_eq nat_eq
get_file_type-get_file_mime directory = refl
get_file_type-get_file_mime exported = refl
get_file_type-get_file_mime shortcut = refl
get_file_type-get_file_mime binary = refl
