-- ===== src/Google/Session/Tests.antt =====
-- A session whose library has a credential, and whose data directory cannot be made at first.
use gd2fuse.Base.{ℕ, zero, suc, true, refl, none, [], codes}
use gd2fuse.Outcome.{Cmd, ok, threw, pure, foreign}
use gd2fuse.Google.Auth.{Library, create_transport, make, auth, read_secret, status_ok}
use gd2fuse.Google.Auth.Samples.{asking}
use gd2fuse.Google.Session.{Dirs, authorize}
use gd2fuse.Google.Session.Lazy.{Session, Serves, Returns, served, get_file_system-Serves}

abbrev stored : Library ℕ
stored = record asking { refresh = λ callback email w. ok (status_ok, 7) (suc w) }

abbrev data_dir : Cmd ℕ ℕ
data_dir zero = ok 3 0
data_dir (suc zero) = threw (foreign "create_directories") 5
data_dir (suc (suc w)) = ok 3 w

abbrev dirs : Dirs ℕ ℕ
dirs = record {
  data_dir = data_dir;
  secret_file = pure tt;
  credential_home_dir = pure tt;
  right_to_left = true;
}

abbrev new_fs : ℕ → ℕ → ℕ → ℕ × ℕ
new_fs d c w = (c, suc w)

abbrev session : Session stored dirs new_fs [] (codes "a")
session = record { auth_cred = none; fs = none; world = 0 }

authorizes : (w : ℕ) → Returns (authorize stored dirs new_fs [] (codes "a") w)
unfolding authorize create_transport make auth read_secret
authorizes w = tt

finds : (w : ℕ) → Returns (data_dir w)
finds zero = tt
finds (suc zero) = tt
finds (suc (suc w)) = tt

get_file_system-Serves_example :
    Serves stored dirs new_fs []
      (codes "a")
      session
      (served stored dirs new_fs [] (codes "a") session)
get_file_system-Serves_example =
    get_file_system-Serves stored dirs new_fs [] (codes "a") authorizes finds session refl
