-- ===== src/Configuration/Refinement.antt =====
-- A simple configuration as a map from names to values.
use mathlib.Core.Path.{fun_ext}
use gd2fuse.Base.{
  ◌≡◌, ◌≢◌, refl, ap, ◌∙◌, inl, inr, Bool, true, false, Option, none, some, ◌==◌, nat_eq, list_eq,
  if◌then◌else◌, Text, Option-cases, ==_true, ==_false,
}
use gd2fuse.Errno.{einval}
use gd2fuse.Node.{Timespec}
use gd2fuse.Outcome.{Error, system_error}
use gd2fuse.Property.{Casts, Property, Store, get_value, set_value, check_validity, normalize_value}
use gd2fuse.Property.Values.{set_value-get_value, SetOutcome}
use gd2fuse.PropertyList.{PropsMap, find_property}
use gd2fuse.Configuration.{simple, get_property, set_property, not_found}

abbrev pub Settings : Type 0
Settings = Text → Option Text

abbrev pub update : Settings → Text → Text → Settings
update s name v = λ n. if n == name then some v else s n

-- What setting a property is to do with the settings, `accepts` being what each name admits.
pub data Sets (accepts : Text → Text → Bool) (s : Settings) (name v : Text)
    : Option Error → Settings → Type 0 where
  missing : s name ≡ none → Sets accepts s name v (some not_found) s
  refused :
      (old : Text)
      → s name ≡ some old
      → accepts name v ≡ false
      → Sets accepts s name v (some (system_error einval "")) s
  stored :
      (old : Text)
      → s name ≡ some old
      → accepts name v ≡ true
      → {t : Settings} → t ≡ update s name (normalize_value v)
      → Sets accepts s name v none t

-- Properties of different names stand in different cells.
abbrev pub Separate : PropsMap → Type 0
Separate m =
    (a b : Text) (p q : Property)
    → a ≢ b
    → find_property m a ≡ some p
    → find_property m b ≡ some q
    → p.cell ≢ q.cell

accepts_of : Casts → Option Property → Text → Bool
accepts_of lib none v = false
accepts_of lib (some p) v = check_validity lib p.upstream.type (normalize_value v)

pub accepts_in : Casts → PropsMap → Text → Text → Bool
accepts_in lib m name v = accepts_of lib (find_property m name) v

abbrev pub view : PropsMap → Store → Settings
view m st = λ n. get_property (simple m) n st

module _ (lib : Casts) (now : Timespec) (m : PropsMap) (name v : Text) (st : Store) where
  view-found :
      {p : Property} → find_property m name ≡ some p → view m st name ≡ some (get_value p st)
  unfolding get_property
  view-found h = rw h refl

  view-missing : find_property m name ≡ none → view m st name ≡ none
  unfolding get_property
  view-missing h = rw h refl

  set-found :
      {p : Property}
      → find_property m name ≡ some p
      → set_property lib now (simple m) name v st ≡ set_value lib now p v st
  unfolding set_property
  set-found h = rw (h, set_property) refl

  set-missing :
      find_property m name ≡ none → set_property lib now (simple m) name v st ≡ (some not_found, st)
  unfolding set_property
  set-missing h = rw (h, set_property) refl

  accepts-found :
      {p : Property}
      → find_property m name ≡ some p
      → accepts_in lib m name v ≡ check_validity lib p.upstream.type (normalize_value v)
  unfolding accepts_in accepts_of
  accepts-found h = rw h refl

abbrev Result : Type 0
Result = Option Error × Store

module _ (m : PropsMap) (name v : Text) (st st' : Store) (p : Property) (apart : Separate m)
    (found : find_property m name ≡ some p) where
  view-update :
      get_value p st' ≡ normalize_value v
      → ((q : Property) → q.cell ≢ p.cell → get_value q st' ≡ get_value q st)
      → (n : Text) → view m st' n ≡ update (view m st) name (normalize_value v) n
  unfolding get_property
  view-update new others n = elim (list_eq.dec n name) [
    | yes same ↦ rw (==_true n name same) (rw (same, found) (ap some new))
    | no differ ↦ rw (==_false n name differ) (elim (Option-cases (find_property m n)) [
      | inl missing_name ↦ rw missing_name refl
      | inr (q, at) ↦ rw at (ap some (others q (apart n name q p differ at found)))
    ])
  ]

-- Setting a property of a simple configuration, which is one list of properties and no chain,
-- whose properties stand in different cells, while the clock is past its first second, does to its
-- map of names to values what it is to do: an unknown name is an error and changes nothing; a
-- value that the property's type does not accept is refused with EINVAL and changes nothing; any
-- other is stored in lower case and trimmed, under that name alone.
pub set_property-Sets :
    (lib : Casts) (now : Timespec) (m : PropsMap) (name v : Text) (st : Store)
    → Separate m
    → now.tv_sec ≢ 0
    → Sets
        (accepts_in lib m)
        (view m st)
        name
        v
        (set_property lib now (simple m) name v st).0
        (view m (set_property lib now (simple m) name v st).1)
set_property-Sets lib now m name v st apart set = elim (Option-cases (find_property m name)) [
  | inl none_there ↦
      rw (set-missing lib now m name v st none_there)
        (missing (view-missing lib now m name v st none_there))
  | inr (p, at) ↦
      rw (set-found lib now m name v st at) (go p at (set_value-get_value lib now p v st set))
]
  where
    go :
        (p : Property)
        → find_property m name ≡ some p
        → SetOutcome lib now p v st (set_value lib now p v st)
        → Sets
            (accepts_in lib m)
            (view m st)
            name
            v
            (set_value lib now p v st).0
            (view m (set_value lib now p v st).1)
    go p at (inl (bad, e)) = rw e (
        refused (get_value p st) (view-found lib now m name v st at)
          (accepts-found lib now m name v st at ∙ bad))
    go p at (inr (good, e, new, others)) = rw e (
        stored (get_value p st) (view-found lib now m name v st at)
          (accepts-found lib now m name v st at ∙ good)
          (fun_ext (view-update m name v st (set_value lib now p v st).1 p apart at new others)))
