-- ===== src/Google/Requests.antt =====
-- The fields of the requests that cloudCreateMeta and cloudUpdate of
-- src/providers/google/GoogleProvider.cpp make of a node.
use gd2fuse.Base.{
  ℕ, ◌/◌, ◌%◌, String, Bool, Option, none, some, List, [], ◌∷◌, ◌==◌, nat_eq, list_eq,
  if◌then◌else◌, Text,
}
use gd2fuse.Node.{Node, access_time, modification_time, change_time, get_time, is_folder}
use gd2fuse.Google.{Dates, get_mime_type, folder_mime, get_file_mime, timespec2gdt}

module _ (d : Dates) where
  -- What a request says of a file: the fields that are set.
  pub record FileRequest : Type 0 where
    pub title : Option String
    pub parents : Option (List String)
    pub mime_type : Option Text
    pub modified_date : Option d.DateTime
    pub created_date : Option d.DateTime
    pub last_viewed_by_me_date : Option d.DateTime

  abbrev pub empty_request : FileRequest
  empty_request = record {
    title = none;
    parents = none;
    mime_type = none;
    modified_date = none;
    created_date = none;
    last_viewed_by_me_date = none;
  }

  -- the request of cloudCreateMeta for a node below the parent with the id `parent`
  unfoldable pub create_request : Node → String → FileRequest
  unfolding get_mime_type
  create_request dest parent =
      let f = record empty_request { title = some dest.name; parents = some (parent ∷ []) } in
      if is_folder dest then record f { mime_type = some (get_mime_type folder_mime) } else f

  -- `patchFields & field`
  abbrev pub has_field : ℕ → ℕ → Bool
  has_field fields field = fields / field % 2 == 1

  with_parent : ℕ → String → FileRequest → FileRequest
  with_parent fields parent f =
      if has_field fields 2 then record f { parents = some (parent ∷ []) } else f

  with_name : ℕ → Node → FileRequest → FileRequest
  with_name fields node f = if has_field fields 1 then record f { title = some node.name } else f

  with_time : ℕ → Node → FileRequest → FileRequest
  unfolding timespec2gdt get_time
  with_time fields node f =
      if has_field fields 8
      then record f {
        modified_date = some (timespec2gdt d (get_time modification_time node));
        created_date = some (timespec2gdt d (get_time change_time node));
        last_viewed_by_me_date = some (timespec2gdt d (get_time access_time node));
      }
      else f

  with_content : ℕ → Node → FileRequest → FileRequest
  unfolding get_file_mime
  with_content fields node f =
      if has_field fields 16
      then record f { mime_type = some (get_file_mime node.file_type) }
      else f

  -- the metadata of cloudUpdate's request, which is null if no field is asked for
  unfoldable pub update_request : Node → String → ℕ → Option FileRequest
  unfolding with_parent with_name with_time with_content
  update_request node parent fields =
      if fields == 0
      then none
      else some (
          with_content fields node (
            with_time fields node
              (with_name fields node (with_parent fields parent empty_request))))
