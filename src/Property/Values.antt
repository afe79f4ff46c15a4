-- ===== src/Property/Values.antt =====
-- Setting and reading back the value of a property, and setting it back to the default.
use gd2fuse.Base.{
  ℕ, ◌≡◌, ◌≢◌, refl, ◌⊎◌, inl, inr, Bool, true, false, Option, none, some, [], nat_eq, list_eq,
  arith, Text, Bool-cases,
}
use native.Mathlib.Decide.{ℕ_discrete}
use mathlib.Core.Bool.{false≢true}
use gd2fuse.Errno.{einval}
use gd2fuse.Node.{Timespec, zero_time}
use gd2fuse.Outcome.{Error, system_error}
use gd2fuse.Property.{
  Casts, check_validity, Property, Cell, Store, put, isset, normalize_value, get_value, set_value,
  is_change, reset_to_default,
}

module _ (lib : Casts) (now : Timespec) (p : Property) (val : Text) (st : Store) where
  abbrev pub new_value : Text
  new_value = normalize_value val

  abbrev pub accepted : Bool
  accepted = check_validity lib p.upstream.type new_value

  pub refused-eq :
      accepted ≡ false → set_value lib now p val st ≡ (some (system_error einval ""), st)
  unfolding set_value
  refused-eq h = rw h refl

  unchanged-eq :
      accepted ≡ true → is_change p st new_value ≡ false → set_value lib now p val st ≡ (none, st)
  unfolding set_value
  unchanged-eq h c = rw (h, c) refl

  changed-eq :
      accepted ≡ true
      → is_change p st new_value ≡ true
      → set_value lib now p val st
        ≡ (none, put st p.cell (record { value = new_value; last_change = now }))
  unfolding set_value
  changed-eq h c = rw (h, c) refl

  kept-value : is_change p st new_value ≡ false → get_value p st ≡ new_value
  unfolding is_change get_value
  kept-value c = ground (arith, c)

  put-same : (c : Cell) (a : ℕ) → a ≡ p.cell → put st p.cell c a ≡ c
  unfolding nat_eq
  put-same c a e = ground arith

  put-other : (c : Cell) (a : ℕ) → a ≢ p.cell → put st p.cell c a ≡ st a
  unfolding nat_eq
  put-other c a h = ground arith

  other-value :
      (c : Cell) (q : Property) → q.cell ≢ p.cell → get_value q (put st p.cell c) ≡ get_value q st
  unfolding get_value
  other-value c q h = rw (put-other c q.cell h) refl

  put-value :
      now.tv_sec ≢ 0
      → get_value p (put st p.cell (record { value = new_value; last_change = now })) ≡ new_value
  unfolding get_value nat_eq
  put-value set = ground (arith, put-same (record { value = new_value; last_change = now }))

  -- The outcome of setValue: refused, with nothing changed, or accepted, when the property has the
  -- new value and no other property's has changed.
  abbrev pub SetOutcome : Option Error × Store → Type 0
  SetOutcome r =
      ((accepted ≡ false) × (r ≡ (some (system_error einval ""), st)))
      ⊎ ((accepted ≡ true)
          × (r.0 ≡ none)
          × (get_value p r.1 ≡ new_value)
          × ((q : Property) → q.cell ≢ p.cell → get_value q r.1 ≡ get_value q st))

  -- Setting a property, while the clock is past its first second: a value that the property's type
  -- does not accept, when it is in lower case and trimmed, is refused with EINVAL and changes
  -- nothing; any other is read back, in lower case and trimmed, and the properties in other cells
  -- keep their values.
  pub set_value-get_value : now.tv_sec ≢ 0 → SetOutcome (set_value lib now p val st)
  set_value-get_value set = elim (Bool-cases accepted) [
    | inr bad ↦ inl (bad, refused-eq bad)
    | inl good ↦ elim (Bool-cases (is_change p st new_value)) [
      | inl change ↦ rw (changed-eq good change) (
          inr (
            good,
            refl,
            put-value set,
            other-value (record { value = new_value; last_change = now }),
          ))
      | inr same ↦ rw (unchanged-eq good same) (inr (good, refl, kept-value same, λ q h. refl))
    ]
  ]

-- A value that has been set is one that the type accepts.
pub record IsValid (lib : Casts) (p : Property) (st : Store) : Type 0 where
  pub checked :
      isset (st p.cell).last_change ≡ true
      → check_validity lib p.upstream.type (st p.cell).value ≡ true

module _ (lib : Casts) (now : Timespec) (p q : Property) (val : Text) (st : Store) where
  put-IsValid :
      (v : Text)
      → (q.cell ≡ p.cell → q.upstream.type ≡ p.upstream.type)
      → check_validity lib p.upstream.type v ≡ true
      → IsValid lib q st
      → IsValid lib q (put st p.cell (record { value = v; last_change = now }))
  put-IsValid v same ok h =
      let c : Cell = record { value = v; last_change = now } in
      record {
        checked = λ set. elim (ℕ_discrete q.cell p.cell) [
          | yes e ↦ rw (put-same lib now p val st c q.cell e) (rw (same e) ok)
          | no d ↦
              let old = put-other lib now p val st c q.cell d in rw old (h.checked (rw old at set))
        ];
      }

  reset-IsValid :
      IsValid lib q st
      → IsValid lib q (put st p.cell (record { value = []; last_change = zero_time }))
  unfolding nat_eq
  reset-IsValid h =
      let c : Cell = record { value = []; last_change = zero_time } in
      record {
        checked = λ set. elim (ℕ_discrete q.cell p.cell) [
          | yes e ↦ absurd (false≢true (rw (put-same lib now p val st c q.cell e) at set))
          | no d ↦
              let old = put-other lib now p val st c q.cell d in rw old (h.checked (rw old at set))
        ];
      }

  reset-value :
      get_value p (put st p.cell (record { value = []; last_change = zero_time }))
      ≡ p.upstream.p.default_value
  unfolding get_value nat_eq
  reset-value = ground (
    arith,
    put-same lib now p val st (record { value = []; last_change = zero_time }) p.cell refl,
  )

  -- Setting one property keeps every property's value valid: properties that share a cell have one
  -- type.
  pub set_value-IsValid :
      (q.cell ≡ p.cell → q.upstream.type ≡ p.upstream.type)
      → IsValid lib q st
      → IsValid lib q (set_value lib now p val st).1
  set_value-IsValid same h = elim (Bool-cases (accepted lib now p val st)) [
    | inr bad ↦ rw (refused-eq lib now p val st bad) h
    | inl good ↦ elim (Bool-cases (is_change p st (normalize_value val))) [
      | inl change ↦
          rw (changed-eq lib now p val st good change)
            (put-IsValid (normalize_value val) same good h)
      | inr keep ↦ rw (unchanged-eq lib now p val st good keep) h
    ]
  ]

  -- Setting a property back to its default: it has the default, the answer says whether a value had
  -- been set, no other property's value changes, and values stay valid.
  pub reset_to_default_lem :
      ((reset_to_default p st).0 ≡ isset (st p.cell).last_change)
      × (get_value p (reset_to_default p st).1 ≡ p.upstream.p.default_value)
      × (q.cell ≢ p.cell → get_value q (reset_to_default p st).1 ≡ get_value q st)
      × (IsValid lib q st → IsValid lib q (reset_to_default p st).1)
  unfolding reset_to_default
  reset_to_default_lem = (
    refl,
    reset-value,
    other-value lib now p val st (record { value = []; last_change = zero_time }) q,
    reset-IsValid,
  )
