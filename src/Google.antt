-- ===== src/Google.antt =====
-- The provider's conversions in src/providers/google/GoogleProvider.cpp, and splitMime of
-- src/utils/assets.cpp: types of files, HTTP status codes, options of the transport, and what a file's
-- description sets on a node; Requests has what is asked of the cloud. The library's responses and
-- dates are parameters.
mod Mime
mod Response
pub mod Filling
pub mod Requests
pub mod Cloud
pub mod Auth
pub mod Session
mod Tests
use mathlib.Core.Option
use gd2fuse.Base.{
  ℕ, zero, suc, ◌*◌, ◌/◌, ◌%◌, ◌<◌, String, ◌≡◌, Bool, true, false, not, ◌&&◌, ◌||◌, Option, none,
  some, List, [], ◌∷◌, ◌++◌, ◌==◌, nat_eq, list_eq, if◌then◌else◌, Text, codes, to_lower, length,
  drop, ltb, leb,
}
use gd2fuse.AppError.{
  ErrorCode, success, http_transport_error, internal_error, http_client_error,
  http_permission_error, http_timeout_error, http_server_error, md5_error, code_value,
}
use gd2fuse.Node.{
  Node, NodeType, directory, exported, binary, shortcut, Timespec, set_time, access_time,
  modification_time, change_time, TimeAttrib, get_time, is_folder,
}
use gd2fuse.Outcome.{
  foreign, Error, app_category, Cmd, Outcome, ok, threw, pure, throw, undefined, and_then, ◌>>=◌,
  ◌>>◌,
}

abbrev pub MimePair : Type 0
MimePair = Text × Text

abbrev pub folder_mime : MimePair
folder_mime = (codes "application", codes "vnd.google-apps.folder")

abbrev pub google_doc : MimePair
google_doc = (codes "application", codes "vnd.google-apps.document")

abbrev pub shortcut_mime : MimePair
shortcut_mime = (codes "application", codes "vnd.google-apps.drive-sdk")

-- splitMime: up to the first slash and behind it, or the whole text without one
unfoldable pub split_mime : Text → MimePair
split_mime [] = ([], [])
split_mime (c ∷ s) = let rest = split_mime s in if c == b'/' then ([], s) else (c ∷ rest.0, rest.1)

unfoldable pub get_mime_type : MimePair → Text
get_mime_type mp = mp.0 ++ b'/' ∷ mp.1

abbrev pub same_mime : MimePair → MimePair → Bool
same_mime a b = a.0 == b.0 && a.1 == b.1

unfoldable pub get_file_type : MimePair → NodeType
get_file_type mp =
    if same_mime mp folder_mime
    then directory
    else if same_mime mp google_doc
    then exported
    else if same_mime mp shortcut_mime
    then shortcut
    else binary

unfoldable pub get_file_mime : NodeType → Text
unfolding get_mime_type
get_file_mime directory = get_mime_type folder_mime
get_file_mime exported = get_mime_type google_doc
get_file_mime shortcut = get_mime_type shortcut_mime
get_file_mime binary = []

-- What checkHttpResponse asks of a response: the transport's status, the HTTP code, whether the
-- response is ok, and whether its body's reader can be reset, the first and the second time.
pub record HttpResponse : Type 0 where
  pub transport_ok : Bool
  pub http_code : ℕ
  pub is_ok : Bool
  pub reset : Bool
  pub reset_again : Bool

abbrev pub between : ℕ → ℕ → ℕ → Bool
between low high code = leb low code && ltb code high

-- the chain of tests for the code: the last `if` stands behind the others
unfoldable pub code_error : ℕ → ErrorCode
code_error code =
    let client =
      if between 400 500 code
      then http_client_error
      else if between 401 404 code
      then http_permission_error
      else if code == 408
      then http_timeout_error
      else success in
    if between 500 600 code then http_server_error else client

unfoldable pub check_http_response : HttpResponse → ErrorCode
unfolding code_error
check_http_response r =
    if not r.transport_ok
    then http_transport_error
    else if r.is_ok
    then success
    else if not r.reset
    then internal_error
    else if not r.reset_again
    then internal_error
    else code_error r.http_code

-- The path to the certificates of the transport's options.
pub data CaCerts : Type 0 where
  default_cacerts disable_ssl_verification : CaCerts
  cacerts_path : Text → CaCerts

starts_with : Text → Text → Bool
starts_with [] s = true
starts_with (_ ∷ _) [] = false
starts_with (a ∷ p) (b ∷ s) = let rest = starts_with p s in if a == b then rest else false

-- std::string::find
unfoldable pub find : Text → Text → Option ℕ
unfolding starts_with
find p [] = if starts_with p [] then some 0 else none
find p (c ∷ s) =
    let rest = Option.map suc (find p s) in if starts_with p (c ∷ s) then some 0 else rest

-- a round of transportConfig's loop
unfoldable pub transport_option : Text → CaCerts → CaCerts
unfolding find
transport_option prop opts =
    let p = to_lower prop in
    if p == codes "disable-ssl-verify"
    then disable_ssl_verification
    else elim (find (codes "ssl-ca-path=") p) [ none ↦ opts | some off ↦ cacerts_path (drop off p) ]

options_loop : List Text → CaCerts → CaCerts
options_loop [] opts = opts
options_loop (p ∷ props) opts = options_loop props (transport_option p opts)

unfoldable pub transport_config : List Text → CaCerts
unfolding transport_option options_loop
transport_config props = options_loop props default_cacerts

abbrev pub md5_thrown : Error
md5_thrown = record { value = code_value md5_error; category = app_category; detail = "" }

-- g_cli::DateTime, and boost::algorithm::unhex, which gives no bytes for what is not hexadecimal
pub record Dates : Type 1 where
  pub DateTime : Type 0
  -- the seconds and microseconds of a date, and the date of a time in seconds
  pub get_timeval : DateTime → ℕ × ℕ
  pub from_seconds : ℕ → DateTime
  pub unhex : Text → Option (List ℕ)

module _ (d : Dates) where
  unfoldable pub gdt2timespec : d.DateTime → Timespec
  gdt2timespec from = let tv = d.get_timeval from in record { tv_sec = tv.0; tv_nsec = tv.1 * 1000 }

  unfoldable pub timespec2gdt : Timespec → d.DateTime
  timespec2gdt from = d.from_seconds from.tv_sec

  -- sp2md5sign; what unhex throws is no G2FException
  unfoldable pub sp2md5sign : {S : Type 0} → String → Text → Cmd S (List ℕ)
  sp2md5sign bad str =
      if length str == 32
      then elim (d.unhex str) [ none ↦ throw (foreign bad) | some ret ↦ pure ret ]
      else throw md5_thrown

  -- g_drv::File: what its getters give
  pub record DriveFile : Type 0 where
    pub id : String
    pub title : String
    pub mime_type : Text
    pub modified_date : d.DateTime
    pub last_viewed_by_me_date : d.DateTime
    pub file_size : ℕ
    pub md5_checksum : Text

  -- an assignment to the node
  abbrev pub modify : (Node → Node) → Cmd Node (Unit {0})
  modify f n = ok tt (f n)

  pub fill_md5 : String → Text → Cmd Node (Unit {0})
  unfolding sp2md5sign
  fill_md5 bad [] = pure tt
  fill_md5 bad (c ∷ m) = do md5 ← sp2md5sign bad (c ∷ m); modify (λ n. record n { md5 = md5 })

  -- fillNode, on the node `dest` as the state
  unfoldable pub fill_node : String → DriveFile → Cmd Node (Unit {0})
  unfolding split_mime get_file_type gdt2timespec fill_md5 set_time
  fill_node bad source = do
    modify (λ n. record n { id = source.id })
    modify (λ n. record n { name = source.title })
    modify (λ n. record n { file_type = get_file_type (split_mime source.mime_type) })
    modify (set_time modification_time (gdt2timespec source.modified_date))
    modify (set_time change_time (gdt2timespec source.modified_date))
    modify (set_time access_time (gdt2timespec source.last_viewed_by_me_date))
    modify (λ n. record n { size = source.file_size })
    if source.file_size == 0 then pure tt else fill_md5 bad source.md5_checksum
