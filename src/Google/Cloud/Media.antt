-- ===== src/Google/Cloud/Media.antt =====
-- ContentReader, the reader of a file's content in the cloud, and GoogleReader, which passes a reader
-- of the content manager on to the library.
pub mod Requests
use gd2fuse.Base.{
  ℕ, String, Bool, true, false, not, Option, none, some, List, ◌==◌, nat_eq, if◌then◌else◌, length,
}
use gd2fuse.AppError.{code_value, http_read_error}
use gd2fuse.Outcome.{
  Error, system_error, app_category, system_category, generic_category, Category, Outcome, ok,
  threw, fault, out_of_fuel, Cmd, pure, throw, and_then, ◌>>=◌, ◌>>◌,
}
use gd2fuse.Google.{Dates, HttpResponse}
use gd2fuse.Google.Cloud.{DriveService, accepted, http_error}
use gd2fuse.Content.Files.{IReader}

-- g_cli::DataReader: whether its end is reached, whether its status is ok, and a read of at most a
-- number of bytes.
pub record DataReader (B : Type 0) : Type 0 where
  pub done : B → Bool
  pub is_ok : B → Bool
  pub read_to_buffer : ℕ → B → List ℕ × B

-- The reader that cloudReadMedia makes: its request's id and its field `_reader`, and the world.
pub record MediaState (B W : Type 0) : Type 0 where
  pub id : String
  pub reader : Option B
  pub world : W

module _ (d : Dates) (svc : DriveService d) (lib : DataReader svc.Body) where
  abbrev pub State : Type 0
  State = MediaState svc.Body svc.World

  abbrev pub cloud_read_media : String → svc.World → State
  cloud_read_media id w = record { id = id; reader = none; world = w }

  abbrev executed : (HttpResponse × svc.Body) × svc.World → Cmd State (HttpResponse × svc.Body)
  executed a s = ok a.0 (record s { world = a.1 })

  abbrev set_reader : svc.Body → Cmd State (Unit {0})
  set_reader r s = ok tt (record s { reader = some r })

  -- `reader()`: the request is executed when the first of its calls needs the body.
  unfoldable pub get_reader : Cmd State svc.Body
  unfolding accepted
  get_reader s = elim s.reader [
    | some r ↦ ok r s
    | none ↦
        (do
          (resp, r) ← executed (svc.get_media s.id s.world)
          accepted "Fail to read data from Google Drive" resp
          set_reader r
          pure r)
          s
  ]

  unfoldable pub done : Cmd State Bool
  unfolding get_reader
  done = do r ← get_reader; pure (lib.done r)

  unfoldable pub read : ℕ → Cmd State (List ℕ)
  unfolding get_reader
  read size = do
    r ← get_reader
    set_reader (lib.read_to_buffer size r).1
    pure (lib.read_to_buffer size r).0

  unfoldable pub error : Cmd State (Option Error)
  unfolding get_reader
  error = do
    r ← get_reader
    pure (if lib.is_ok r then none else some (http_error "" (code_value http_read_error)))

-- g_utl::Status of the library's reader: StatusFromErrno keeps the number.
pub data ReaderStatus : Type 0 where
  status_ok status_unknown : ReaderStatus
  status_from_errno : ℕ → ReaderStatus

-- The fields of GoogleReader's base that DoReadToBuffer sets, beside the content's reader.
pub record ReaderState (R : Type 0) : Type 0 where
  pub content : R
  pub done : Bool
  pub status : ReaderStatus

abbrev pub is_generic : Category → Bool
is_generic generic_category = true
is_generic _ = false

-- `e!=err::errc::success`: an error_code of value 0 is no error.
abbrev pub status_of : ReaderStatus → Option Error → ReaderStatus
status_of old none = old
status_of old (some e) =
    if e.value == 0
    then old
    else (if is_generic e.category then status_from_errno e.value else status_unknown)

module _ {R : Type 0} (reader : IReader R) where
  abbrev pub after_read : ReaderState R → ℕ → Outcome R (List ℕ) → Outcome (ReaderState R) (List ℕ)
  after_read s max_bytes (ok ret r) =
      if length ret == max_bytes
      then ok ret (record s { content = r })
      else ok ret (record {
        content = r;
        done = if reader.done r then true else s.done;
        status = status_of s.status (reader.error r);
      })
  after_read s max_bytes (threw e r) = threw e (record s { content = r })
  after_read s max_bytes fault = fault
  after_read s max_bytes out_of_fuel = out_of_fuel

  unfoldable pub do_read_to_buffer : ℕ → Cmd (ReaderState R) (List ℕ)
  do_read_to_buffer max_bytes s = after_read s max_bytes (reader.read max_bytes s.content)
