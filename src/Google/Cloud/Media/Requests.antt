-- ===== src/Google/Cloud/Media/Requests.antt =====
-- How many requests the reader of a file's content in the cloud makes.
use gd2fuse.Base.{==_false, ℕ, ◌≡◌, ◌≢◌, refl, String, some, List, [], ◌∷◌, nat_eq, ◌⊎◌, inl, inr}
use native.Mathlib.Decide.{ℕ_discrete}
use gd2fuse.AppError.{code_value}
use gd2fuse.Outcome.{Outcome, ok, threw, Cmd, pure, ◌>>=◌}
use gd2fuse.Google.{Dates, check_http_response}
use gd2fuse.Google.Cloud.{DriveService, accepted, http_error}
use gd2fuse.Google.Cloud.Media.{DataReader, MediaState, cloud_read_media, read}

module _ (d : Dates) (svc : DriveService d) (lib : DataReader svc.Body) where
  -- One read for each size.
  pub read_all : List ℕ → Cmd (MediaState svc.Body svc.World) (List (List ℕ))
  read_all [] = pure []
  read_all (size ∷ sizes) = do
    bytes ← read d svc lib size
    rest ← read_all sizes
    pure (bytes ∷ rest)

  -- What these reads give of a body, and the body behind them.
  abbrev pub parts_read : List ℕ → svc.Body → List (List ℕ)
  parts_read [] r = []
  parts_read (size ∷ sizes) r =
      (lib.read_to_buffer size r).0 ∷ parts_read sizes (lib.read_to_buffer size r).1

  abbrev pub behind : List ℕ → svc.Body → svc.Body
  behind [] r = r
  behind (size ∷ sizes) r = behind sizes (lib.read_to_buffer size r).1

  abbrev pub opened : String → svc.World → svc.Body → MediaState svc.Body svc.World
  opened id w r = record { id = id; reader = some r; world = w }

  read_all-opened :
      (sizes : List ℕ) (id : String) (w : svc.World) (r : svc.Body)
      → read_all sizes (opened id w r) ≡ ok (parts_read sizes r) (opened id w (behind sizes r))
  unfolding read_all read
  read_all-opened [] id w r = refl
  read_all-opened (size ∷ sizes) id w r =
      rw (read_all-opened sizes id w (lib.read_to_buffer size r).1) refl

  -- The state after the one request, and what the reads have given.
  abbrev pub Served :
      String → List ℕ → svc.World → Outcome (MediaState svc.Body svc.World) (List (List ℕ)) → Type 0
  Served id sizes w o =
      let a = svc.get_media id w in
      let code = code_value (check_http_response a.0.0) in
      ((code ≡ 0) × (o ≡ ok (parts_read sizes a.0.1) (opened id a.1 (behind sizes a.0.1))))
      ⊎ ((code ≢ 0)
          × (o
              ≡ threw (http_error "Fail to read data from Google Drive" code)
                  (cloud_read_media d svc lib id a.1)))

  -- However many reads are made of a new reader, one of them at least, the cloud gets one request, when
  -- the first is made. If the response is accepted, the reads give the parts of its body in order; if
  -- not, the first read throws the response's error and leaves the reader as it was made, so that the
  -- next read asks again.
  pub read_all-Served :
      (id : String) (size : ℕ) (sizes : List ℕ) (w : svc.World)
      → Served id (size ∷ sizes) w (read_all (size ∷ sizes) (cloud_read_media d svc lib id w))
  unfolding read_all read accepted nat_eq
  read_all-Served id size sizes w =
      let a = svc.get_media id w in
      elim (ℕ_discrete (code_value (check_http_response a.0.0)) 0) [
        | yes fine ↦
            inl
              (fine, rw (fine, read_all-opened sizes id a.1 (lib.read_to_buffer size a.0.1).1) refl)
        | no refused ↦
            inr (refused, rw (==_false (code_value (check_http_response a.0.0)) 0 refused) refl)
      ]
