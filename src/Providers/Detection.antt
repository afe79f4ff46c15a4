-- ===== src/Providers/Detection.antt =====
-- Which provider an account gets.
use gd2fuse.Base.{
  ◌≡◌, ◌≢◌, refl, sym, false, none, some, [], ◌∷◌, ◌++◌, nat_eq, list_eq, Text, codes, to_lower,
  All, ==_true, ==_false,
}
use gd2fuse.Outcome.{fault}
use gd2fuse.Providers.{ProviderFactory, Registry, find, find_lower, contains, choose_provider}

module _ {P : Type 0} where
  -- The names of the factories are not this one, in whatever case.
  abbrev pub NoneNamed : Text → Registry P → Type 0
  NoneNamed name reg = All (λ (p : ProviderFactory P). to_lower p.name ≢ to_lower name) reg

  find_lower-none :
      (name : Text) (reg : Registry P) → NoneNamed name reg → find_lower (to_lower name) reg ≡ none
  unfolding find_lower
  find_lower-none name [] h = refl
  find_lower-none name (p ∷ reg) h =
      rw (==_false (to_lower name) (to_lower p.name) (λ e. h.0 (sym e)))
        (find_lower-none name reg h.1)

  find_lower-first :
      (name : Text) (before : Registry P) (f : ProviderFactory P) (after : Registry P)
      → NoneNamed name before
      → to_lower f.name ≡ to_lower name
      → find_lower (to_lower name) (before ++ f ∷ after) ≡ some f
  unfolding find_lower
  find_lower-first name [] f after h e = rw (==_true (to_lower name) (to_lower f.name) (sym e)) refl
  find_lower-first name (p ∷ before) f after h e =
      rw (==_false (to_lower name) (to_lower p.name) (λ d. h.0 (sym d)))
        (find_lower-first name before f after h.1 e)

  -- A provider is found under its name in whatever case, and the first that was registered if several
  -- have the name; a name that no provider has gives none.
  pub find-first :
      (name : Text) (before : Registry P) (f : ProviderFactory P) (after : Registry P)
      → NoneNamed name before
      → to_lower f.name ≡ to_lower name
      → (find name (before ++ f ∷ after) ≡ some f) × (find name before ≡ none)
  unfolding find
  find-first name before f after h e =
      (find_lower-first name before f after h e, find_lower-none name before h)

  -- An account whose name is not empty and does not have the word "gmail" in it ends the start of the
  -- application with a null pointer, and not with the error that no provider could be determined.
  pub choose_provider-fault :
      (email : Text) (reg : Registry P) {S : Type 0} (s : S)
      → email ≢ []
      → contains email (codes "gmail") ≡ false
      → choose_provider email reg s ≡ fault
  unfolding choose_provider
  choose_provider-fault [] reg s h g = absurd (h refl)
  choose_provider-fault (c ∷ email) reg s h g = rw g refl
