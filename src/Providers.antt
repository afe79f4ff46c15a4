-- ===== src/Providers.antt =====
-- The registry of providers (src/providers/ProvidersRegistry.cpp), and the choice of a provider when
-- the application is made (the constructor in src/control/Application.cpp). What a factory makes is a
-- parameter.
mod Detection
use gd2fuse.Base.{
  ℕ, Bool, true, false, Option, none, some, List, [], ◌∷◌, ◌++◌, ◌==◌, nat_eq, list_eq,
  if◌then◌else◌, Text, codes, to_lower, map,
}
use gd2fuse.AppError.{code_value, wrong_app_arguments, couldnt_determine_provider, ErrorCode}
use gd2fuse.Google as G
use gd2fuse.Outcome.{
  Error, app_category, Cmd, Outcome, ok, threw, pure, throw, undefined, and_then, ◌>>=◌, ◌>>◌,
}

-- IProviderFactory: a name, and `create`, which may give no provider
pub record ProviderFactory (P : Type 0) : Type 0 where
  pub name : Text
  pub create : Option P

abbrev pub throw_code : {S A : Type 0} → ErrorCode → Cmd S A
throw_code c = throw (record { value = code_value c; category = app_category; detail = "" })

abbrev pub Registry : Type 0 → Type 0
Registry P = List (ProviderFactory P)

-- std::string::find, as a test
unfoldable pub contains : Text → Text → Bool
unfolding G.find
contains text word = elim (G.find word text) [ none ↦ false | some _ ↦ true ]

abbrev pub is_empty : Text → Bool
is_empty [] = true
is_empty (_ ∷ _) = false

module _ {P : Type 0} where
  -- ProviderRegistrar
  unfoldable pub register : ProviderFactory P → Registry P → Registry P
  register f reg = reg ++ f ∷ []

  unfoldable pub get_available_providers : Registry P → List Text
  get_available_providers reg = map (λ p. p.name) reg

  find_lower : Text → Registry P → Option (ProviderFactory P)
  find_lower name [] = none
  find_lower name (p ∷ reg) =
      let rest = find_lower name reg in if name == to_lower p.name then some p else rest

  unfoldable pub find : Text → Registry P → Option (ProviderFactory P)
  unfolding find_lower
  find name reg = find_lower (to_lower name) reg

  unfoldable pub detect_by_account_name : Text → Registry P → Option (ProviderFactory P)
  unfolding find contains
  detect_by_account_name acc_name reg =
      if contains acc_name (codes "gmail") then find (codes "gdrive") reg else none

  provider_of : Option (ProviderFactory P) → {S : Type 0} → Cmd S P
  provider_of none = undefined
  provider_of (some f) = elim f.create [
    | none ↦ throw_code couldnt_determine_provider
    | some p ↦ pure p
  ]

  -- The application's constructor, behind the configuration: the provider.
  unfoldable pub choose_provider : Text → Registry P → {S : Type 0} → Cmd S P
  unfolding detect_by_account_name provider_of
  choose_provider email reg =
      if is_empty email
      then throw_code wrong_app_arguments
      else provider_of (detect_by_account_name email reg)
