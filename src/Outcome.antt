-- ===== src/Outcome.antt =====
-- What a call of a C++ function gives: a value, an exception, or undefined behaviour, with the state
-- that it leaves. `Cmd S A` is a function over a mutable state `S`.
pub mod Invariant
use gd2fuse.Base.{ℕ, Bool, true, false, String, List, [], ◌∷◌}

-- err::error_category, by identity. An exception that is not a G2FException, such as those of boost and
-- of the standard library, has no error code of the program: it stands in a category of its own.
pub data Category : Type 0 where
  app_category system_category generic_category foreign_category : Category

-- G2FError of src/error/appError.h, or what is thrown in its place
pub record Error : Type 0 where
  pub value : ℕ
  pub category : Category
  pub detail : String

abbrev pub system_error : ℕ → String → Error
system_error errno detail = record { value = errno; category = system_category; detail = detail }

-- an exception of a library
abbrev pub foreign : String → Error
foreign what = record { value = 0; category = foreign_category; detail = what }

-- what `catch(const G2FException &)` tells apart
abbrev is_program_category : Category → Bool
is_program_category app_category = true
is_program_category system_category = true
is_program_category generic_category = true
is_program_category foreign_category = false

abbrev pub is_g2f : Error → Bool
is_g2f e = is_program_category e.category

pub data Outcome (S : Type 0) (A : Type 0) : Type 0 where
  ok : A → S → Outcome S A
  -- an exception leaves the state as it was at the throw
  threw : Error → S → Outcome S A
  -- a null or dangling pointer, or a failed assertion
  fault : Outcome S A
  out_of_fuel : Outcome S A

abbrev pub Cmd : Type 0 → Type 0 → Type 0
Cmd S A = S → Outcome S A

module _ {S A : Type 0} where
  abbrev pub pure : A → Cmd S A
  pure a = λ s. ok a s

  abbrev pub throw : Error → Cmd S A
  throw e = λ s. threw e s

  abbrev pub undefined : Cmd S A
  undefined = λ _. fault

module _ {S A B : Type 0} where
  abbrev pub and_then : Outcome S A → (A → Cmd S B) → Outcome S B
  and_then (ok a s) k = k a s
  and_then (threw e s) k = threw e s
  and_then fault k = fault
  and_then out_of_fuel k = out_of_fuel

  infixl 5 ◌>>=◌ ◌>>◌
  abbrev pub ◌>>=◌ : Cmd S A → (A → Cmd S B) → Cmd S B
  m >>= k = λ s. and_then (m s) k

  abbrev pub ◌>>◌ : Cmd S A → Cmd S B → Cmd S B
  m >> n = m >>= λ _. n

-- `for (x : xs) f(x)`
unfoldable pub each {ℓ} :
    {S : Type 0} {A : Type ℓ} → (A → Cmd S (Unit {0})) → List A → Cmd S (Unit {0})
each f [] = pure tt
each f (x ∷ xs) = f x >> each f xs
