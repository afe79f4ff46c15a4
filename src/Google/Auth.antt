-- ===== src/Google/Auth.antt =====
-- The authorization: Auth of src/providers/google/Auth.cpp, and GoogleOAuth2 and HttpTransportFactory
-- of src/providers/google/GoogleProvider.cpp. The library's flow and credential store, the terminal and
-- the file of the client's secret are a parameter. OpenSSL is left out: its branch does not compile.
pub mod Samples
pub mod Process
use gd2fuse.Base.{
  Bool, true, false, Option, none, some, List, [], ◌∷◌, if◌then◌else◌, Text, String, is_space,
}
use gd2fuse.AppError.{
  ErrorCode, code_value, authentication_failed, bad_file_operation, http_transport_error,
}
use gd2fuse.Outcome.{
  Error, app_category, Outcome, ok, threw, fault, out_of_fuel, Cmd, pure, throw, and_then, ◌>>=◌,
  ◌>>◌,
}

-- g_utl::Status, as far as it is looked at
pub data Status : Type 0 where
  status_ok status_error : Status

-- What an authorization callback gives: the status and the code.
abbrev pub Authorized : Type 0
Authorized = Status × Text

abbrev pub Callback : Type 0 → Type 0
Callback W = Cmd W Authorized

pub record Library (W : Type 0) : Type 1 where
  pub Credential : Type 0
  -- NewDefaultTransport
  pub new_transport : W → Status × W
  -- fs::exists of the secret's file, and its bytes if it can be opened
  pub secret_exists : W → Bool
  pub secret_file : W → Option Text
  -- MakeFlowFromClientSecretsJson and NewCredentialStore
  pub make_flow : Text → W → Status × W
  pub new_store : W → Status × W
  -- the next word of std::cin, empty at its end
  pub read_word : W → Text × W
  -- RefreshCredentialWithOptions, for an e-mail address: it may ask the callback for a code
  pub refresh : Callback W → Text → Cmd W (Status × Credential)

abbrev pub throw_code : {S A : Type 0} → ErrorCode → String → Cmd S A
throw_code c detail =
    throw (record { value = code_value c; category = app_category; detail = detail })

-- std::istream_iterator<char> skips white space.
unfoldable pub without_spaces : Text → Text
without_spaces [] = []
without_spaces (c ∷ s) = let rest = without_spaces s in if is_space c then rest else c ∷ rest

module _ {W : Type 0} (lib : Library W) where
  abbrev asked : {A : Type 0} → (W → A × W) → Cmd W A
  asked f w = ok (f w).0 (f w).1

  abbrev pub checked : ErrorCode → String → Status → Cmd W (Unit {0})
  checked c detail status_ok = pure tt
  checked c detail status_error = throw_code c detail

  -- HttpTransportFactory::createTransport
  unfoldable pub create_transport : Cmd W (Unit {0})
  create_transport =
      asked lib.new_transport >>= checked http_transport_error "Error creating HTTP transport"

  unfoldable pub exception_callback : Callback W
  exception_callback =
      throw_code authentication_failed "Failed to authenticate. Please, refresh auth information"

  -- `std::cin >> *authorization_code`
  abbrev canceled_or : Text → Authorized
  canceled_or [] = (status_error, [])
  canceled_or (c ∷ word) = (status_ok, c ∷ word)

  -- with the code that has been given to setCallback
  unfoldable pub prompt_shell_callback : Text → Callback W
  prompt_shell_callback [] = do word ← asked lib.read_word; pure (canceled_or word)
  prompt_shell_callback (c ∷ code) = pure (status_ok, c ∷ code)

  -- with the key that is built in
  unfoldable pub read_secret : Text → Cmd W Text
  unfolding without_spaces
  read_secret secret_app_key w =
      if lib.secret_exists w
      then elim (lib.secret_file w) [
        | none ↦ throw_code bad_file_operation "Can't open secret client file '%1'" w
        | some text ↦ ok (without_spaces text) w
      ]
      else ok secret_app_key w

  -- Impl's constructor
  unfoldable pub make : Text → Cmd W (Unit {0})
  unfolding read_secret
  make secret_app_key = do
    secret ← read_secret secret_app_key
    status ← asked (lib.make_flow secret)
    checked bad_file_operation "Fail to load client secret file '%1'" status

  unfoldable pub auth : Callback W → Text → Cmd W lib.Credential
  auth callback email = do
    store ← asked lib.new_store
    checked authentication_failed "Fail to create credential store '%1'" store
    (status, credential) ← lib.refresh callback email
    checked authentication_failed "Fail to obtain authorization token" status
    pure credential

  -- `Auth a(createTransport(),secretFile)`, a callback, and `a.auth(...)`
  unfoldable pub authenticate : Text → Callback W → Text → Cmd W lib.Credential
  unfolding create_transport make auth
  authenticate secret_app_key callback email = do
    create_transport
    make secret_app_key
    auth callback email
