-- ===== src/Base/Ascii.antt =====
-- Texts as lists of bytes, for the code that walks or compares them, in the C locale.
use Prim.Native.Nat.{ℕ, ◌+◌}
use Prim.Native.String.{String}
use Prim.Native.Char.{code}
use mathlib.Core.Path.{◌≡◌, refl}
use mathlib.Core.Bool.{Bool, true, false, ◌&&◌, ◌||◌}
use mathlib.Core.List.{List, [], ◌∷◌, map}
use native.Mathlib.Omega.{arith}
use gd2fuse.Base.Equality.{◌==◌, nat_eq, if◌then◌else◌}
use gd2fuse.Base.Numbers.{leb}

abbrev pub Text : Type 0
Text = List ℕ

-- The bytes of an ASCII literal.
abbrev pub codes : String → Text
codes String.[] = []
codes (String.◌∷◌ c s) = code c ∷ codes s

-- std::tolower
unfoldable pub tolower : ℕ → ℕ
tolower c = if leb b'A' c && leb c b'Z' then c + 32 else c

-- boost::to_lower
abbrev pub to_lower : Text → Text
to_lower = map tolower

-- std::isspace
unfoldable pub is_space : ℕ → Bool
is_space c = c == 32 || leb 9 c && leb c 13

-- Whether two texts are equal, as a test that follows them byte by byte.
unfoldable pub same : Text → Text → Bool
same [] [] = true
same [] (_ ∷ _) = false
same (_ ∷ _) [] = false
same (a ∷ s) (b ∷ t) = let rest = same s t in if a == b then rest else false

pub same-true : (s t : Text) → same s t ≡ true → s ≡ t
unfolding same
same-true [] [] h = refl
same-true [] (_ ∷ _) h = cc
same-true (_ ∷ _) [] h = cc
same-true (a ∷ s) (b ∷ t) h = ground (arith, same-true s t)

pub same_refl : (s : Text) → same s s ≡ true
unfolding same
same_refl [] = refl
same_refl (a ∷ s) = ground (arith, same_refl s)
