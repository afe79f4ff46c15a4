-- ===== src/Google/Session.antt =====
-- GoogleProviderSession of src/providers/google/GoogleProvider.cpp: the file system and the credential,
-- which are made when they are first asked for. The directories of the path managers, which may throw,
-- and what makes the file system are parameters.
mod Lazy
mod Tests
use gd2fuse.Base.{Bool, true, false, Option, none, some, Text, if◌then◌else◌}
use gd2fuse.Outcome.{Outcome, ok, threw, fault, out_of_fuel, Cmd, pure, and_then, ◌>>=◌, ◌>>◌}
use gd2fuse.Google.Auth.{Library, create_transport, make, auth, exception_callback}
use gd2fuse.Google.Auth.Process.{OAuth2, create_oauth2_process}

-- The fields that change, and the world.
pub record ProviderSession (C F W : Type 0) : Type 0 where
  pub auth_cred : Option C
  pub fs : Option F
  pub world : W

-- getDir of the provider's and the session's path managers. The configuration's directory is part of
-- what the library is given; the order in which a compiler evaluates arguments is not laid down.
pub record Dirs (W D : Type 0) : Type 0 where
  pub data_dir : Cmd W D
  pub secret_file : Cmd W (Unit {0})
  pub credential_home_dir : Cmd W (Unit {0})
  pub right_to_left : Bool

module _ {W D F : Type 0} (lib : Library W) (dirs : Dirs W D)
    (new_fs : D → lib.Credential → W → F × W) (secret_app_key acc_id : Text) where
  abbrev pub State : Type 0
  State = ProviderSession lib.Credential F W

  abbrev in_session : {A : Type 0} → State → Outcome W A → Outcome State A
  in_session s (ok a w) = ok a (record s { world = w })
  in_session s (threw e w) = threw e (record s { world = w })
  in_session s fault = fault
  in_session s out_of_fuel = out_of_fuel

  abbrev on_world : {A : Type 0} → Cmd W A → Cmd State A
  on_world m s = in_session s (m s.world)

  abbrev set_auth_cred : lib.Credential → Cmd State (Unit {0})
  set_auth_cred c s = ok tt (record s { auth_cred = some c })

  -- `Auth a(_transportFactory.createTransport(),getSecretFile())`, the callback, and `a.auth(...)`
  unfoldable pub authorize : Cmd W lib.Credential
  unfolding create_transport make auth
  authorize = do
    if dirs.right_to_left
        then (do dirs.secret_file; create_transport lib)
        else (do create_transport lib; dirs.secret_file)
    make lib secret_app_key
    dirs.credential_home_dir
    auth lib (exception_callback lib) acc_id

  unfoldable pub get_auth_cred : Cmd State lib.Credential
  unfolding authorize
  get_auth_cred s = elim s.auth_cred [
    | some c ↦ ok c s
    | none ↦ (do c ← on_world authorize; set_auth_cred c; pure c) s
  ]

  -- the arguments for `std::make_shared<GoogleFileSystem>`, from right to left or from left to right
  unfoldable pub fs_arguments : Bool → Cmd State (D × lib.Credential)
  unfolding get_auth_cred
  fs_arguments true = do c ← get_auth_cred; d ← on_world dirs.data_dir; pure (d, c)
  fs_arguments false = do d ← on_world dirs.data_dir; c ← get_auth_cred; pure (d, c)

  -- `_fs=std::make_shared<GoogleFileSystem>(...)`
  abbrev make_fs : D → lib.Credential → Cmd State F
  make_fs d c s =
      ok (new_fs d c s.world).0
        (record s { fs = some (new_fs d c s.world).0; world = (new_fs d c s.world).1 })

  unfoldable pub get_file_system : Cmd State F
  unfolding fs_arguments
  get_file_system s = elim s.fs [
    | some f ↦ ok f s
    | none ↦ (do (d, c) ← fs_arguments dirs.right_to_left; make_fs d c) s
  ]

  unfoldable pub is_authorized : State → Bool
  is_authorized s = elim s.auth_cred [ none ↦ false | some _ ↦ true ]

  -- createOAuth2Process, with the two directories among the arguments
  unfoldable pub create_process : Cmd State (OAuth2 lib secret_app_key acc_id)
  create_process = do
    if dirs.right_to_left
        then on_world (do dirs.credential_home_dir; dirs.secret_file)
        else on_world (do dirs.secret_file; dirs.credential_home_dir)
    λ s. ok (create_oauth2_process lib secret_app_key acc_id s.world) s
