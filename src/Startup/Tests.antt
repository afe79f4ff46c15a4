-- ===== src/Startup/Tests.antt =====
-- The status of an authorization with a code.
use gd2fuse.Base.{ℕ, true, false, ◌≡◌, refl, none, [], codes}
use gd2fuse.Outcome.{ok}
use gd2fuse.Google.Auth.{authenticate, prompt_shell_callback}
use gd2fuse.Google.Auth.Samples.{asking}
use gd2fuse.Startup.{Options, Program, run, exit_status}
use gd2fuse.Startup.Status.{google_process, auth_status, run-auth_status}

abbrev program : Program ℕ
program = record {
  Session = Unit {0};
  create = λ email w. ok tt w;
  create_session = λ w. ok tt w;
  oauth2_process = λ sess. google_process asking [] (codes "a");
  build_fs = λ sess w. ok tt w;
  fuse_main = λ args w. ok 0 w;
}

abbrev options : Options
options = record {
  argc_is_one = false;
  help = false;
  get_auth = true;
  debug = false;
  read_only = false;
  foreground = false;
  disable_m_thread = false;
  mount_point = none;
  o_values = none;
  auth_code = codes "4/x";
  email = codes "a";
}

run-auth_status_example :
    exit_status (λ e. true) (run program options 0)
    ≡ auth_status asking []
        (codes "a")
        (codes "4/x")
        (authenticate asking [] (prompt_shell_callback asking (codes "4/x")) (codes "a") 0)
run-auth_status_example =
    run-auth_status asking [] (codes "a") (λ e. true) program options tt 0 0 0 refl refl refl refl
      refl refl
