-- ===== src/Google/Auth/Samples.antt =====
-- A library of authorization for concrete runs: its world counts the requests, and it asks for a code.
use gd2fuse.Base.{ℕ, suc, false, none, []}
use gd2fuse.Outcome.{ok, threw, fault, out_of_fuel, Outcome}
use gd2fuse.Google.Auth.{Library, Status, status_ok, Authorized}

abbrev with_code : Outcome ℕ Authorized → Outcome ℕ (Status × ℕ)
with_code (ok (status, code) w) = ok (status, 7) (suc w)
with_code (threw e w) = threw e w
with_code fault = fault
with_code out_of_fuel = out_of_fuel

abbrev pub asking : Library ℕ
asking = record {
  Credential = ℕ;
  new_transport = λ w. (status_ok, w);
  secret_exists = λ w. false;
  secret_file = λ w. none;
  make_flow = λ secret w. (status_ok, w);
  new_store = λ w. (status_ok, w);
  read_word = λ w. ([], w);
  refresh = λ callback email w. with_code (callback w);
}
