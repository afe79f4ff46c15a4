-- ===== src/Google/Auth/Process.antt =====
-- GoogleOAuth2 of src/providers/google/GoogleProvider.cpp: one try at an authorization, with or
-- without a code.
use gd2fuse.Base.{Bool, true, false, Option, none, some, [], Text}
use gd2fuse.Outcome.{Error, Outcome, ok, threw, fault, out_of_fuel, Cmd}
use gd2fuse.Google.Auth.{Library, authenticate, prompt_shell_callback}

-- The fields that change, and the world.
pub record Process (C W : Type 0) : Type 0 where
  pub credential : Option C
  pub error_message : Option Error
  pub world : W

module _ {W : Type 0} (lib : Library W) (secret_app_key email : Text) where
  abbrev pub OAuth2 : Type 0
  OAuth2 = Process lib.Credential W

  abbrev pub create_oauth2_process : W → OAuth2
  create_oauth2_process w = record { credential = none; error_message = none; world = w }

  unfoldable pub is_finished : OAuth2 → Bool
  is_finished p = elim p.credential [ none ↦ false | some _ ↦ true ]

  -- `catch(const std::exception &e)`: the error is kept for its text
  abbrev pub caught : OAuth2 → Outcome W lib.Credential → Outcome OAuth2 Bool
  caught p (ok c w) = ok true (record p { credential = some c; world = w })
  caught p (threw e w) = ok false (record p { error_message = some e; world = w })
  caught p fault = fault
  caught p out_of_fuel = out_of_fuel

  unfoldable pub finish_native_app : Text → Cmd OAuth2 Bool
  finish_native_app code p =
      caught p (authenticate lib secret_app_key (prompt_shell_callback lib code) email p.world)

  unfoldable pub start_native_app : Cmd OAuth2 Bool
  unfolding finish_native_app
  start_native_app = finish_native_app []
