-- ===== src/Stack/Cloud.antt =====
-- The same through the Google file system, over a service that takes new files.
use gd2fuse.Base.{
  ℕ, String, Bool, true, false, ◌≡◌, ◌≢◌, refl, ap, ◌∙◌, list_eq, Text, none, some, ◌∷◌, nat_eq,
}
use gd2fuse.AppError.{code_value}
use gd2fuse.Cache.{Ptr, find_by_path}
use gd2fuse.FilePath.{Elements}
use gd2fuse.FileSystem.{Operations}
use gd2fuse.Node.{Timespec, directory, is_directory}
use gd2fuse.Outcome.{Error}
use gd2fuse.Joined.{MountPtr, FsPtr}
use gd2fuse.Gate.{Nodes}
use gd2fuse.Google.{
  Dates, check_http_response, get_file_type, split_mime, get_mime_type, folder_mime,
}
use gd2fuse.Google.Requests.{FileRequest, create_request}
use gd2fuse.Google.Filling.{described}
use gd2fuse.Google.Cloud.{DriveService}
use gd2fuse.Google.Cloud.Backend.{Local, answered, describe, named, google_backend}
use gd2fuse.Tree.{Fs}
use gd2fuse.Tree.Change.Create.{Accepts}
use gd2fuse.Tree.Change.CreateNode.{IsWhole}
use gd2fuse.Tree.Change.Directory.{TellsFolders}
use gd2fuse.Tree.Content.Handle.{Descriptors}
use gd2fuse.Tree.Import.{Source}
use gd2fuse.Stack.Making.{Makes, mkdir-Makes}

-- A service whose insert method takes each request: it answers with a file of the title and of the MIME
-- type asked for, which has no content yet.
pub record Inserts {d : Dates} (svc : DriveService d) : Type 0 where
  pub taken :
      (f : FileRequest d) (w : svc.World)
      → code_value (check_http_response (svc.insert_file f w).0.0) ≡ 0
  pub titled :
      (f : FileRequest d) (w : svc.World) (title : String)
      → f.title ≡ some title
      → (svc.insert_file f w).0.1.title ≡ title
  pub typed :
      (f : FileRequest d) (w : svc.World) (mime : Text)
      → f.mime_type ≡ some mime
      → (svc.insert_file f w).0.1.mime_type ≡ mime
  pub empty : (f : FileRequest d) (w : svc.World) → (svc.insert_file f w).0.1.file_size ≡ 0

module _ (d : Dates) (svc : DriveService d) (bad : String) (local : Local svc.World svc.Body)
    (i : Inserts svc) where
  request-title :
      (e id : String) (folder : Bool) → (create_request d (named e folder) id).title ≡ some e
  unfolding create_request
  request-title e id true = refl
  request-title e id false = refl

  -- The record of answers that Google's file system gives accepts new entries under their names.
  pub google_backend-Accepts : Accepts (google_backend d svc bad local)
  unfolding answered describe nat_eq
  google_backend-Accepts = record {
    reply = λ e id folder w.
        described d bad (svc.insert_file (create_request d (named e folder) id) w).0.1 none;
    after = λ e id folder w. (svc.insert_file (create_request d (named e folder) id) w).1;
    accepts = λ e id folder w.
        rw
          (
            i.taken (create_request d (named e folder) id) w,
            i.empty (create_request d (named e folder) id) w,
          )
          refl;
    named = λ e id folder w.
        i.titled (create_request d (named e folder) id) w e (request-title e id folder);
  }

  folder_request :
      (e id : String)
      → (create_request d (named e true) id).mime_type ≡ some (get_mime_type folder_mime)
  unfolding create_request
  folder_request e id = refl

  folder_type : get_file_type (split_mime (get_mime_type folder_mime)) ≡ directory
  unfolding get_file_type split_mime get_mime_type list_eq nat_eq
  folder_type = refl

  -- A directory is sent under its MIME type, which is read back as a directory.
  google_backend-TellsFolders : TellsFolders (google_backend d svc bad local) google_backend-Accepts
  unfolding google_backend-Accepts
  google_backend-TellsFolders e id w = ap is_directory (
      ap (λ (m : Text). get_file_type (split_mime m))
        (i.typed (create_request d (named e true) id) w (get_mime_type folder_mime)
          (folder_request e id))
      ∙ folder_type)

  -- `mkdir` and then `access`, down to the inserted file of the service.
  pub mkdir-Makes_google :
      (cm : Descriptors svc.World) (now : Timespec) (rounds : ℕ) (source_of : Ptr → Source)
      (conf_fs : Operations (Fs svc.World) Ptr) (mount_node : MountPtr → Ptr) (main conf : FsPtr)
      (root_mode : ℕ) (control : String) (conf_mode : ℕ) {H A : Type 0}
      (nodes : Nodes (Fs svc.World) Ptr H A) (condition : Error → ℕ) (e : String) (rest : Elements)
      (other : e ≢ control) (s : Fs svc.World) (r : Ptr)
      → IsWhole s r
      → find_by_path ("/" ∷ e ∷ rest) s.cache ≡ none
      → Makes
          (google_backend d svc bad local)
          cm
          now
          rounds
          source_of
          conf_fs
          mount_node
          main
          conf
          root_mode
          control
          conf_mode
          nodes
          condition
          e
          rest
          other
          s
          r
  mkdir-Makes_google cm now rounds source_of conf_fs mount_node main conf root_mode control
        conf_mode nodes condition e rest other s r v uncached =
      mkdir-Makes (google_backend d svc bad local) cm now rounds source_of conf_fs mount_node main
        conf root_mode control conf_mode nodes condition e rest other google_backend-Accepts
        google_backend-TellsFolders s r v uncached
