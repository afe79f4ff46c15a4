-- ===== src/Startup.antt =====
-- The program's start: main of src/main.cpp, Application of src/control/Application.cpp, and the
-- arguments that FuseGate::run of src/presentation/FuseGate.cpp gives to FUSE. The parsed options, the
-- sessions and fuse_main are parameters; the choice of the provider is in Providers.
pub mod Status
mod Tests
use gd2fuse.Base.{
  ℕ, ◌%◌, Bool, true, false, not, ◌||◌, Option, none, some, List, [], ◌∷◌, ◌++◌, if◌then◌else◌,
  Text, codes,
}
use gd2fuse.Outcome.{
  Error, Outcome, ok, threw, fault, out_of_fuel, Cmd, pure, undefined, and_then, ◌>>=◌, ◌>>◌,
}

-- FUSEOpts
pub record FuseOpts : Type 0 where
  pub debug : Bool
  pub foreground : Bool
  pub disable_m_thread : Bool
  pub mount_point : Text
  pub ooo : List Text

abbrev flag_arg : Bool → Text → List Text
flag_arg true arg = arg ∷ []
flag_arg false arg = []

abbrev o_args : List Text → List Text
o_args [] = []
o_args (o ∷ ooo) = codes "-o" ∷ o ∷ o_args ooo

abbrev mount_arg : Text → List Text
mount_arg [] = []
mount_arg (c ∷ point) = (c ∷ point) ∷ []

-- The arguments of fuse_main, from the application's name on.
unfoldable pub fuse_args : FuseOpts → List Text
fuse_args opts =
    codes "gd2fuse" ∷ flag_arg opts.debug (codes "-d")
    ++ flag_arg opts.foreground (codes "-f")
    ++ flag_arg opts.disable_m_thread (codes "-s")
    ++ o_args opts.ooo
    ++ mount_arg opts.mount_point

-- What the options' library has found: how often a switch stands, and the values.
pub record Options : Type 0 where
  pub argc_is_one : Bool
  pub help : Bool
  pub get_auth : Bool
  pub debug : Bool
  pub read_only : Bool
  pub foreground : Bool
  pub disable_m_thread : Bool
  pub mount_point : Option Text
  pub o_values : Option (List Text)
  pub auth_code : Text
  pub email : Text

abbrev option_or : {A : Type 0} → A → Option A → A
option_or old none = old
option_or old (some a) = a

-- readFUSEopts, which sets what has been given
unfoldable pub read_fuse_opts : Options → FuseOpts → FuseOpts
read_fuse_opts vm opts = record opts {
  debug = vm.debug;
  disable_m_thread = vm.disable_m_thread;
  foreground = vm.foreground;
  mount_point = option_or opts.mount_point vm.mount_point;
  ooo = option_or opts.ooo vm.o_values;
}

abbrev pub no_opts : FuseOpts
no_opts = record {
  debug = false;
  foreground = false;
  disable_m_thread = false;
  mount_point = [];
  ooo = [];
}

-- IOAuth2Process: startNativeApp and finishNativeApp
pub record OAuth2Process (W : Type 0) : Type 0 where
  pub start_native_app : Cmd W Bool
  pub finish_native_app : Text → Cmd W Bool

-- What main calls: the constructor of the application, sessions and their processes, and FUSE.
pub record Program (W : Type 0) : Type 1 where
  pub Session : Type 0
  pub create : Text → Cmd W (Unit {0})
  pub create_session : Cmd W Session
  pub oauth2_process : Session → OAuth2Process W
  pub build_fs : Session → Cmd W (Unit {0})
  pub fuse_main : List Text → Cmd W ℕ

-- `bool` as `int`
abbrev pub to_int : Bool → ℕ
to_int true = 1
to_int false = 0

module _ {W : Type 0} where
  -- createAuthFile, behind the creation of the session and of its process
  unfoldable pub create_auth_file : OAuth2Process W → Text → Cmd W ℕ
  create_auth_file o2p [] = do _ ← o2p.start_native_app; pure 0
  create_auth_file o2p (c ∷ code) = do ok_ ← o2p.finish_native_app (c ∷ code); pure (to_int ok_)

  -- fuseStart
  unfoldable pub fuse_start : Program W → FuseOpts → Cmd W ℕ
  unfolding fuse_args
  fuse_start p opts = do sess ← p.create_session; p.build_fs sess; p.fuse_main (fuse_args opts)

  -- The body of main's try block, behind the parsing of the options.
  unfoldable pub run : Program W → Options → Cmd W ℕ
  unfolding create_auth_file fuse_start read_fuse_opts
  run p vm = if vm.argc_is_one || vm.help then pure 0 else (do
    p.create vm.email
    if vm.get_auth
        then (do sess ← p.create_session; create_auth_file (p.oauth2_process sess) vm.auth_code)
        else fuse_start p (read_fuse_opts vm no_opts))

  -- The catch blocks, and the eight bits of a status that the system keeps. An exception is the
  -- application's own, with an error, or another one.
  unfoldable pub exit_status : (Error → Bool) → Outcome W ℕ → Option ℕ
  exit_status is_own (ok n w) = some (n % 256)
  exit_status is_own (threw e w) = some (if is_own e then e.value % 256 else 128)
  exit_status is_own fault = none
  exit_status is_own out_of_fuel = none
