-- ===== src/Google/Cloud/Tests.antt =====
-- A service that answers with one file and logs the ids it is asked for.
use gd2fuse.Base.{ℕ, String, true, false, none, some, List, [], ◌∷◌, take, drop, codes, arith}
use gd2fuse.Node.{Node, new_node}
use gd2fuse.Tree.{done}
use gd2fuse.Google.{HttpResponse, DriveFile}
use gd2fuse.Google.Tests.{dates, file}
use gd2fuse.Google.Cloud.{DriveService}
use gd2fuse.Google.Cloud.Backend.{Local}
use gd2fuse.Google.Cloud.Refinement.{Refines, google_backend-Refines}
use gd2fuse.Google.Cloud.Media.{DataReader, cloud_read_media}
use gd2fuse.Google.Cloud.Media.Requests.{Served, read_all, read_all-Served}

abbrev fine : HttpResponse
fine = record {
  transport_ok = true;
  http_code = 200;
  is_ok = true;
  reset = true;
  reset_again = true;
}

abbrev missing : HttpResponse
missing = record fine { http_code = 404; is_ok = false }

abbrev Log : Type 0
Log = List String

abbrev empty_file : DriveFile dates
empty_file = record file { file_size = 0 }

abbrev service : DriveService dates
service = record {
  World = Log;
  Body = List ℕ;
  get_file = λ id w. ((fine, empty_file), id ∷ w);
  list_children = λ id w. ((fine, some (some "x" ∷ none ∷ [])), id ∷ w);
  insert_file = λ f w. ((fine, empty_file), "new" ∷ w);
  update_file = λ id meta type content w. (fine, id ∷ w);
  delete_file = λ id w. (missing, id ∷ w);
  get_media = λ id w. ((fine, codes "abcde"), id ∷ w);
}

abbrev local : Local Log (List ℕ)
local = record {
  whole = λ r. r;
  content_is = λ id w. done false w;
  content_create = λ id bytes w. done tt w;
  content_read = λ id w. done [] w;
  content_delete = λ id w. done true w;
  content_open = λ id flags w. done 0 w;
  content_truncate = λ id h n w. done tt w;
}

abbrev node : Node
node = record (new_node (some 0)) { id = "i"; name = "old" }

google_backend-Refines_example : Refines dates service "not_hex" local node "p" 3 (7 ∷ []) []
google_backend-Refines_example =
    google_backend-Refines dates service "not_hex" local node "p" 3 (7 ∷ []) [] (λ h. cc)
      (omega arith)

abbrev buffers : DataReader (List ℕ)
buffers = record {
  done = λ r. false;
  is_ok = λ r. true;
  read_to_buffer = λ size r. (take size r, drop size r);
}

read_all-Served_example :
    Served dates service buffers "i"
      (2 ∷ 4 ∷ [])
      []
      (read_all dates service buffers (2 ∷ 4 ∷ []) (cloud_read_media dates service buffers "i" []))
read_all-Served_example = read_all-Served dates service buffers "i" 2 (4 ∷ []) []
