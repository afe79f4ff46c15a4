-- ===== src/Outcome/Invariant.antt =====
-- What holds of the state before a command and after it, also after an exception.
use gd2fuse.Base.{Bool, true, false, ◌≢◌, List, [], ◌∷◌, if◌then◌else◌}
use gd2fuse.Outcome.{Outcome, ok, threw, fault, out_of_fuel, Cmd, pure, and_then, ◌>>=◌, each}

module _ {S : Type 0} (I : S → Type 0) where
  abbrev pub After : {A : Type 0} → Outcome S A → Type 0
  After (ok a t) = I t
  After (threw e t) = I t
  After fault = Unit
  After out_of_fuel = Unit

  abbrev pub Keeps : {A : Type 0} → Cmd S A → Type 0
  Keeps m = (s : S) → I s → After (m s)

  pub After-and_then :
      {A B : Type 0} (o : Outcome S A) (k : A → Cmd S B)
      → After o
      → ((a : A) → Keeps (k a))
      → After (and_then o k)
  After-and_then (ok a t) k h hk = hk a t h
  After-and_then (threw e t) k h hk = h
  After-and_then fault k h hk = tt
  After-and_then out_of_fuel k h hk = tt

  pub Keeps-bind :
      {A B : Type 0} (m : Cmd S A) (k : A → Cmd S B)
      → Keeps m
      → ((a : A) → Keeps (k a))
      → Keeps (m >>= k)
  Keeps-bind m k hm hk s i = After-and_then (m s) k (hm s i) hk

  pub Keeps-pure : {A : Type 0} (a : A) → Keeps (pure a)
  Keeps-pure a s i = i

  pub Keeps-if :
      {A : Type 0} (c : Bool) (m n : Cmd S A) → Keeps m → Keeps n → Keeps (if c then m else n)
  Keeps-if true m n hm hn = hm
  Keeps-if false m n hm hn = hn

  pub Keeps-each :
      {A : Type 0} (f : A → Cmd S (Unit {0})) (xs : List A)
      → ((a : A) → Keeps (f a))
      → Keeps (each f xs)
  unfolding each
  Keeps-each f [] h = Keeps-pure tt
  Keeps-each f (x ∷ xs) h = Keeps-bind (f x) (λ _. each f xs) (h x) (λ _. Keeps-each f xs h)

-- What holds of the state after a command that returns.
abbrev pub Ends : {S A : Type 0} → (S → Type 0) → Outcome S A → Type 0
Ends Q (ok a t) = Q t
Ends Q (threw e t) = Unit
Ends Q fault = Unit
Ends Q out_of_fuel = Unit

module _ {S A : Type 0} where
  pub After-Ends : (I : S → Type 0) (o : Outcome S A) → After I o → Ends I o
  After-Ends I (ok a t) h = h
  After-Ends I (threw e t) h = tt
  After-Ends I fault h = tt
  After-Ends I out_of_fuel h = tt

  pub Ends-and_then :
      {B : Type 0} (I Q : S → Type 0) (o : Outcome S A) (k : A → Cmd S B)
      → Ends I o
      → ((a : A) (t : S) → I t → Ends Q (k a t))
      → Ends Q (and_then o k)
  Ends-and_then I Q (ok a t) k h hk = hk a t h
  Ends-and_then I Q (threw e t) k h hk = tt
  Ends-and_then I Q fault k h hk = tt
  Ends-and_then I Q out_of_fuel k h hk = tt

  -- A command with no state to end in does not return.
  pub Ends-never : (o : Outcome S A) (a : A) (t : S) → Ends (λ _. ⊥) o → o ≢ ok a t
  Ends-never (ok a t) b u h e = h
  Ends-never (threw e t) b u h g = cc
  Ends-never fault b u h g = cc
  Ends-never out_of_fuel b u h g = cc
