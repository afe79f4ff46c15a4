-- ===== src/ConfFs/Access.antt =====
-- Writing to the files and truncating them.
use gd2fuse.Base.{
  ℕ, ◌<◌, ◌≤◌, ◌≡◌, ◌≢◌, refl, ap, ◌⊎◌, inl, inr, true, false, Option, none, some, [], nat_eq,
  arith, Text, length, Bool-cases,
}
use native.Mathlib.Decide.{ℕ_discrete, dec_lt}
use gd2fuse.Errno.{eacces, efbig, einval}
use gd2fuse.Node.{Timespec, zero_time}
use gd2fuse.Outcome.{Error}
use gd2fuse.Property.{
  Casts, Property, Store, get_value, set_value, check_validity, normalize_value, reset_to_default,
}
use gd2fuse.Property.Values.{SetOutcome, set_value-get_value, reset_to_default_lem}
use gd2fuse.ConfFs.{PropNode, ContentHandle, write, write_result, truncate, max_size_conf_file}

module _ (lib : Casts) (now : Timespec) (h : ContentHandle) (buf : Text) (offset : ℕ)
    (st : Store) where
  -- What writing to a handle does.
  abbrev pub WriteOutcome : ContentHandle × Store × Option ℕ → Type 0
  WriteOutcome r =
      ((offset ≢ 0) × (r ≡ (record h { error = einval }, st, none)))
      ⊎ ((offset ≡ 0)
          × (check_validity lib h.p.upstream.type (normalize_value buf) ≡ false)
          × (r ≡ (record h { error = einval }, st, none)))
      ⊎ ((offset ≡ 0)
          × (check_validity lib h.p.upstream.type (normalize_value buf) ≡ true)
          × (r.0 ≡ record h { error = 0 })
          × (r.2 ≡ some (length buf))
          × (get_value h.p r.1 ≡ normalize_value buf)
          × ((q : Property) → q.cell ≢ h.p.cell → get_value q r.1 ≡ get_value q st))

  write-start :
      offset ≡ 0
      → write lib now h buf offset st ≡ write_result h (length buf) (set_value lib now h.p buf st)
  unfolding write nat_eq
  write-start e = rw e refl

  write-behind :
      offset ≢ 0 → write lib now h buf offset st ≡ (record h { error = einval }, st, none)
  unfolding write nat_eq
  write-behind e = ground arith

  written :
      offset ≡ 0
      → (r : Option Error × Store) → SetOutcome lib now h.p buf st r
      → WriteOutcome (write_result h (length buf) r)
  written e r (inl (bad, same)) = inr (inl (e, bad, ap (write_result h (length buf)) same))
  written e (none, st') (inr (good, ok, new, others)) = inr (inr (e, good, refl, refl, new, others))
  written e (some x, st') (inr (good, ok, new, others)) = cc

  -- Writing to a handle, while the clock is past its first second: behind the start of the file it is
  -- an error, and so is a value that the property's type refuses (EINVAL both times, and nothing
  -- changes); else the whole buffer counts as written, the property has it, in lower case and
  -- trimmed, as its value, and no property of another cell changes. Whether the property may change
  -- while the program runs does not matter.
  pub write_lem : now.tv_sec ≢ 0 → WriteOutcome (write lib now h buf offset st)
  write_lem set = elim (ℕ_discrete offset 0) [
    | yes e ↦
        rw (write-start e)
          (written e (set_value lib now h.p buf st) (set_value-get_value lib now h.p buf st set))
    | no e ↦ inl (e, write-behind e)
  ]

-- What truncating the file of a property does.
abbrev pub TruncateOutcome : PropNode → ℕ → Store → ℕ × Store → Type 0
TruncateOutcome n size st r =
    ((n.p.upstream.p.change_rt ≡ false) × (r ≡ (eacces, st)))
    ⊎ ((n.p.upstream.p.change_rt ≡ true) × (max_size_conf_file < size) × (r ≡ (efbig, st)))
    ⊎ ((n.p.upstream.p.change_rt ≡ true)
        × (size ≡ 0)
        × (r.0 ≡ 0)
        × (get_value n.p r.1 ≡ n.p.upstream.p.default_value))
    ⊎ ((n.p.upstream.p.change_rt ≡ true) × (size ≢ 0) × (size ≤ max_size_conf_file) × (r ≡ (0, st)))

module _ (n : PropNode) (size : ℕ) (st : Store) where
  truncate-denied : n.p.upstream.p.change_rt ≡ false → truncate n size st ≡ (eacces, st)
  unfolding truncate
  truncate-denied h = rw h refl

  module _ (h : n.p.upstream.p.change_rt ≡ true) where
    truncate-big : max_size_conf_file < size → truncate n size st ≡ (efbig, st)
    unfolding truncate
    truncate-big l = ground (arith, h)

    truncate-zero : size ≡ 0 → truncate n size st ≡ (0, (reset_to_default n.p st).1)
    unfolding truncate nat_eq
    truncate-zero e = ground (arith, h)

    truncate-other : size ≢ 0 → size ≤ max_size_conf_file → truncate n size st ≡ (0, st)
    unfolding truncate nat_eq
    truncate-other e l = ground (arith, h)

-- Truncating the file of a property: EACCES, if it is not to change while the program runs; EFBIG for
-- a size above the limit; else success, when the property has its default value at size 0, and
-- nothing changes at another size.
pub truncate_lem :
    (lib : Casts) (n : PropNode) (size : ℕ) (st : Store)
    → TruncateOutcome n size st (truncate n size st)
truncate_lem lib n size st = elim (Bool-cases n.p.upstream.p.change_rt) [
  | inr fixed ↦ inl (fixed, truncate-denied n size st fixed)
  | inl free ↦ elim (dec_lt max_size_conf_file size) [
    | yes big ↦ inr (inl (free, big, truncate-big n size st free big))
    | no small ↦ elim (ℕ_discrete size 0) [
      | yes e ↦
          rw (truncate-zero n size st free e)
            (inr (inr (inl (free, e, refl, (reset_to_default_lem lib zero_time n.p n.p [] st).1))))
      | no e ↦ inr (inr (inr (free, e, omega arith, truncate-other n size st free e (omega arith))))
    ]
  ]
]
