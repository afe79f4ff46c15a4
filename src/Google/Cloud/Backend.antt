-- ===== src/Google/Cloud/Backend.antt =====
-- The Google file system as the cloud of the tree: what GoogleFileSystem's methods answer, without the
-- nodes that they are called with.
use gd2fuse.Base.{
  ℕ, String, Bool, true, false, Option, none, some, List, [], ◌∷◌, ◌==◌, nat_eq, if◌then◌else◌,
  Text, length,
}
use gd2fuse.AppError.{code_value}
use gd2fuse.Node.{Node, Meta, new_node, directory, binary}
use gd2fuse.Outcome.{foreign}
use gd2fuse.Tree.{Answer, done, failed, Backend}
use gd2fuse.Google.{Dates, DriveFile, HttpResponse, check_http_response, md5_thrown}
use gd2fuse.Google.Filling.{described}
use gd2fuse.Google.Requests.{create_request, update_request}
use gd2fuse.Google.Cloud.{DriveService, http_error, ids_of}

-- The content manager's operations, and a whole body of a response.
pub record Local (W B : Type 0) : Type 0 where
  pub whole : B → List ℕ
  pub content_is : String → W → Answer W Bool
  pub content_create : String → List ℕ → W → Answer W (Unit {0})
  pub content_read : String → W → Answer W (List ℕ)
  pub content_delete : String → W → Answer W Bool
  pub content_open : String → ℕ → W → Answer W ℕ
  pub content_truncate : String → ℕ → ℕ → W → Answer W (Unit {0})

-- A response that is refused is a failure, with the text that it is thrown with.
unfoldable pub answered : {W A : Type 0} → String → HttpResponse → Answer W A → W → Answer W A
unfolding check_http_response
answered what r a w =
    if code_value (check_http_response r) == 0
    then a
    else failed (http_error what (code_value (check_http_response r))) w

-- A node with a name, that is a folder or not.
abbrev pub named : String → Bool → Node
named name true = record (new_node none) { name = name; file_type = directory }
named name false = record (new_node none) { name = name; file_type = binary }

-- A node with an id and a name.
abbrev pub identified : String → String → Node
identified id name = record (new_node none) { id = id; name = name }

abbrev pub or_empty : Option String → String
or_empty none = ""
or_empty (some id) = id

module _ (d : Dates) (svc : DriveService d) (bad : String) where
  -- The description with a checksum, if that can be read.
  abbrev pub hashed : DriveFile d → Option (List ℕ) → svc.World → Answer svc.World Meta
  hashed f none w = failed (foreign bad) w
  hashed f (some md5) w = done (described d bad f (some md5)) w

  abbrev pub checksum : DriveFile d → Text → svc.World → Answer svc.World Meta
  checksum f [] w = done (described d bad f none) w
  checksum f (c ∷ m) w =
      if length (c ∷ m) == 32 then hashed f (d.unhex (c ∷ m)) w else failed md5_thrown w

  unfoldable pub describe : DriveFile d → svc.World → Answer svc.World Meta
  describe f w =
      if f.file_size == 0 then done (described d bad f none) w else checksum f f.md5_checksum w

  abbrev pub google_backend : Local svc.World svc.Body → Backend
  google_backend local = record {
    World = svc.World;
    fetch_meta = λ id w.
        let a = svc.get_file id w in
        answered "GoogleFS: fail to get node description" a.0.0 (describe a.0.1 a.1) a.1;
    fetch_children = λ id w.
        let a = svc.list_children id w in
        answered "GoogleFS: Error reading children list" a.0.0 (done (ids_of a.0.1) a.1) a.1;
    create_meta = λ name parent folder w.
        let a = svc.insert_file (create_request d (named name folder) parent) w in
        answered "GoogleFS: fail to create node" a.0.0 (describe a.0.1 a.1) a.1;
    update = λ id fields name parent w.
        let a =
          svc.update_file id (update_request d (identified id name) (or_empty parent) fields) ""
            none w in
        answered "GoogleFS: Fail to update data" a.0 (done tt a.1) a.1;
    update_media = λ id bytes w.
        let a = svc.update_file id none "" (some bytes) w in
        answered "GoogleFS: Fail to update data" a.0 (done tt a.1) a.1;
    remove = λ id w.
        let a = svc.delete_file id w in
        answered "GoogleFS: Fail to remove node id '%1'" a.0 (done tt a.1) a.1;
    read_media = λ id w.
        let a = svc.get_media id w in
        answered "Fail to read data from Google Drive" a.0.0 (done (local.whole a.0.1) a.1) a.1;
    content_is = local.content_is;
    content_create = local.content_create;
    content_read = local.content_read;
    content_delete = local.content_delete;
    content_open = local.content_open;
    content_truncate = local.content_truncate;
  }
