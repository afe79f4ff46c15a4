-- ===== src/Google/Cloud.antt =====
-- GoogleFileSystem of src/providers/google/GoogleProvider.cpp: what the tree asks of the cloud, as
-- methods of the Drive library's service, which is a parameter. Media has the readers of the contents.
pub mod Media
pub mod Backend
mod Refinement
mod Tests
use gd2fuse.Base.{
  ℕ, String, Bool, true, false, Option, none, some, List, [], ◌∷◌, ◌==◌, nat_eq, if◌then◌else◌,
}
use gd2fuse.AppError.{code_value}
use gd2fuse.Node.{Node, is_folder}
use gd2fuse.Outcome.{
  Error, app_category, Outcome, ok, threw, fault, out_of_fuel, Cmd, pure, throw, undefined,
  and_then, ◌>>=◌, ◌>>◌,
}
use gd2fuse.Google.{Dates, DriveFile, HttpResponse, check_http_response, fill_node}
use gd2fuse.Google.Requests.{FileRequest, create_request, update_request, has_field}

-- g_drv::DriveService: each method's response, with the file or the list that ExecuteAndParseResponse
-- has parsed; a list has an "items" array or not, and of each item the text of its "id" or not.
-- A media request gives a reader of the response's body.
pub record DriveService (d : Dates) : Type 1 where
  pub World : Type 0
  pub Body : Type 0
  pub get_file : String → World → (HttpResponse × DriveFile d) × World
  pub list_children : String → World → (HttpResponse × Option (List (Option String))) × World
  pub insert_file : FileRequest d → World → (HttpResponse × DriveFile d) × World
  -- id, metadata, type of the media, and the bytes that the library reads of the content
  pub update_file :
      String → Option (FileRequest d) → String → Option (List ℕ) → World → HttpResponse × World
  pub delete_file : String → World → HttpResponse × World
  pub get_media : String → World → (HttpResponse × Body) × World

-- `e.get("id","").asString()`
abbrev pub id_or_empty : Option String → String
id_or_empty none = ""
id_or_empty (some id) = id

abbrev pub item_ids : List (Option String) → List String
item_ids [] = []
item_ids (e ∷ items) = id_or_empty e ∷ item_ids items

-- `if(items && items->isArray())`
abbrev pub ids_of : Option (List (Option String)) → List String
ids_of none = []
ids_of (some items) = item_ids items

-- An error of the application, with the text that it is thrown with.
abbrev pub http_error : String → ℕ → Error
http_error what code = record { value = code; category = app_category; detail = what }

-- `if(e) G2FExceptionBuilder(what).throwIt(e)` for what checkHttpResponse gives
unfoldable pub accepted : {S : Type 0} → String → HttpResponse → Cmd S (Unit {0})
unfolding check_http_response
accepted what r =
    if code_value (check_http_response r) == 0
    then pure tt
    else throw (http_error what (code_value (check_http_response r)))

module _ {W : Type 0} where
  -- A method that is executed, alone and beside the node `dest`.
  abbrev pub execute : {A : Type 0} → (W → A × W) → Cmd W A
  execute f w = ok (f w).0 (f w).1

  abbrev pub beside : {A : Type 0} → Node → Outcome W A → Outcome (Node × W) A
  beside n (ok a w) = ok a (n, w)
  beside n (threw e w) = threw e (n, w)
  beside n fault = fault
  beside n out_of_fuel = out_of_fuel

  abbrev pub on_dest : {A : Type 0} → W → Outcome Node A → Outcome (Node × W) A
  on_dest w (ok a n) = ok a (n, w)
  on_dest w (threw e n) = threw e (n, w)
  on_dest w fault = fault
  on_dest w out_of_fuel = out_of_fuel

module _ (d : Dates) (svc : DriveService d) (bad : String) where
  -- `fillNode(*file,dest)`
  abbrev pub filled : DriveFile d → Cmd (Node × svc.World) (Unit {0})
  filled f s = on_dest s.1 (fill_node d bad f s.0)

  unfoldable pub cloud_fetch_meta : Cmd (Node × svc.World) (Unit {0})
  cloud_fetch_meta s =
      (do
        (r, f) ← (λ t. beside t.0 (execute (svc.get_file t.0.id) t.1))
        accepted "GoogleFS: fail to get node description" r
        filled f)
        s

  unfoldable pub cloud_fetch_children_list : String → Cmd svc.World (List String)
  cloud_fetch_children_list parent_id = do
    (r, items) ← execute (svc.list_children parent_id)
    accepted "GoogleFS: Error reading children list" r
    pure (ids_of items)

  -- for a node below a parent with an id
  unfoldable pub cloud_create_meta : String → Cmd (Node × svc.World) (Unit {0})
  cloud_create_meta parent s =
      (do
        (r, f) ← (λ t. beside t.0 (execute (svc.insert_file (create_request d t.0 parent)) t.1))
        accepted "GoogleFS: fail to create node" r
        filled f)
        s

  -- `node.getParent()->getId()`, if it is asked for
  abbrev pub parent_id : ℕ → Option String → Cmd svc.World String
  parent_id fields (some id) = pure id
  parent_id fields none = if has_field d fields 2 then undefined else pure ""

  -- `assert(patchFields!=0 || content)`
  abbrev pub assert_something : ℕ → Option (List ℕ) → Cmd svc.World (Unit {0})
  assert_something fields (some bytes) = pure tt
  assert_something fields none = if fields == 0 then undefined else pure tt

  -- with the id of the node's parent, which may be null
  unfoldable pub cloud_update :
      Node → Option String → ℕ → String → Option (List ℕ) → Cmd svc.World (Unit {0})
  cloud_update node parent fields media_type content = do
    assert_something fields content
    id ← parent_id fields parent
    r ← execute (svc.update_file node.id (update_request d node id fields) media_type content)
    accepted "GoogleFS: Fail to update data" r

  unfoldable pub cloud_remove : Node → Cmd svc.World (Unit {0})
  cloud_remove node = do
    r ← execute (svc.delete_file node.id)
    accepted "GoogleFS: Fail to remove node id '%1'" r
