-- ===== src/Startup/Status.antt =====
-- The exit status of the mode GETAUTH, over the Google provider's process.
use gd2fuse.Base.{ℕ, Bool, true, false, ◌≡◌, refl, Option, none, some, [], ◌∷◌, Text}
use gd2fuse.Outcome.{Error, Outcome, ok, threw, fault, out_of_fuel, pure, and_then}
use gd2fuse.Google.Auth.{Library, authenticate, prompt_shell_callback}
use gd2fuse.Google.Auth.Process.{
  OAuth2, create_oauth2_process, start_native_app, finish_native_app, caught,
}
use gd2fuse.Startup.{OAuth2Process, Options, Program, run, create_auth_file, exit_status, to_int}

module _ {W : Type 0} (lib : Library W) (secret_app_key email : Text) where
  -- The process goes with the program's end.
  abbrev dropped : Outcome (OAuth2 lib secret_app_key email) Bool → Outcome W Bool
  dropped (ok b p) = ok b p.world
  dropped (threw e p) = threw e p.world
  dropped fault = fault
  dropped out_of_fuel = out_of_fuel

  -- GoogleOAuth2 as main uses it: one call of a new process.
  abbrev pub google_process : OAuth2Process W
  google_process = record {
    start_native_app = λ w. dropped (
        start_native_app lib secret_app_key email
          (create_oauth2_process lib secret_app_key email w));
    finish_native_app = λ code w. dropped (
        finish_native_app lib secret_app_key email code
          (create_oauth2_process lib secret_app_key email w));
  }

  -- The status, for the code of the command line and the outcome of the authorization.
  abbrev pub auth_status : Text → Outcome W lib.Credential → Option ℕ
  auth_status [] (ok c w) = some 0
  auth_status [] (threw e w) = some 0
  auth_status (_ ∷ _) (ok c w) = some 1
  auth_status (_ ∷ _) (threw e w) = some 0
  auth_status code fault = none
  auth_status code out_of_fuel = none

  module _ (is_own : Error → Bool) (p : OAuth2 lib secret_app_key email) where
    start-status :
        (o : Outcome W lib.Credential)
        → exit_status is_own
            (and_then (dropped (caught lib secret_app_key email p o)) (λ _. pure 0))
          ≡ auth_status [] o
    unfolding exit_status
    start-status (ok c w) = refl
    start-status (threw e w) = refl
    start-status fault = refl
    start-status out_of_fuel = refl

    finish-status :
        (c : ℕ) (code : Text) (o : Outcome W lib.Credential)
        → exit_status is_own
            (and_then (dropped (caught lib secret_app_key email p o)) (λ ok_. pure (to_int ok_)))
          ≡ auth_status (c ∷ code) o
    unfolding exit_status
    finish-status x code (ok c w) = refl
    finish-status x code (threw e w) = refl
    finish-status x code fault = refl
    finish-status x code out_of_fuel = refl

  create_auth_file-status :
      (is_own : Error → Bool) (code : Text) (w : W)
      → exit_status is_own (create_auth_file google_process code w)
        ≡ auth_status code
            (authenticate lib secret_app_key (prompt_shell_callback lib code) email w)
  unfolding create_auth_file start_native_app finish_native_app
  create_auth_file-status is_own [] w =
      start-status is_own (create_oauth2_process lib secret_app_key email w)
        (authenticate lib secret_app_key (prompt_shell_callback lib []) email w)
  create_auth_file-status is_own (c ∷ code) w =
      finish-status is_own (create_oauth2_process lib secret_app_key email w) c code
        (authenticate lib secret_app_key (prompt_shell_callback lib (c ∷ code)) email w)

  -- The program's status in the mode GETAUTH, when the application and the session can be made: without
  -- a code it is 0, also if the authorization fails; with a code it is 1 if the authorization is
  -- finished, and 0 if it fails.
  pub run-auth_status :
      (is_own : Error → Bool) (p : Program W) (vm : Options) (sess : p.Session) (w v u : W)
      → vm.argc_is_one ≡ false
      → vm.help ≡ false
      → vm.get_auth ≡ true
      → p.create vm.email w ≡ ok tt v
      → p.create_session v ≡ ok sess u
      → p.oauth2_process sess ≡ google_process
      → exit_status is_own (run p vm w)
        ≡ auth_status vm.auth_code
            (authenticate lib secret_app_key (prompt_shell_callback lib vm.auth_code) email u)
  unfolding run
  run-auth_status is_own p vm sess w v u one help get_auth created opened process =
      rw (one, help, get_auth, created, opened, process)
        (create_auth_file-status is_own vm.auth_code u)
