-- ===== src/PropertyFile/SetValue.antt =====
-- What setValue of a property in a file leaves.
use mathlib.Core.Path.{subst}
use gd2fuse.Base.{
  ◌≡◌, refl, sym, ap, Bool, true, false, Option, none, some, [], nat_eq, ◌⊎◌, inl, inr, arith, Text,
  if◌then◌else◌,
}
use gd2fuse.Outcome.{Error, Outcome, ok, threw, fault, out_of_fuel}
use gd2fuse.PropertyFile.FileStream.{Stream}
use gd2fuse.PropertyFile.{
  update_conf, Property, Disk, after_update, update_file, update_found, new_file, with_directory,
  set_found, open_error, set_value, opened, rounds,
}
use gd2fuse.PropertyFile.Unchanged.{Leaves, update_conf-Leaves}

-- What setValue leaves: it returns, and the file has the text that it had; a file that was not there
-- is empty, or still not there.
abbrev pub Kept : Option Text → Outcome Property (Option Error) → Type 0
Kept (some text) (ok code q) = q.file ≡ some text
Kept none (ok code q) = (q.file ≡ none) ⊎ (q.file ≡ some [])
Kept before (threw e q) = ⊥
Kept before fault = ⊥
Kept before out_of_fuel = ⊥

module _ (sentry_fails : Bool) (failure : Error) (d : Disk) (name val : Text) where
  after_update-Kept :
      (p : Property) (text : Text) (o : Outcome Stream Bool)
      → Leaves text o
      → Kept (some text) (after_update sentry_fails failure d p o)
  after_update-Kept p text (ok true t) h = ap some h
  after_update-Kept p text (ok false t) h = ap some h
  after_update-Kept p text (threw e t) h = ap some h
  after_update-Kept p text fault h = absurd h
  after_update-Kept p text out_of_fuel h = absurd h

  opened-Leaves :
      (text : Text)
      → Leaves text (update_conf sentry_fails failure (rounds text) name val (opened text))
  opened-Leaves text =
      update_conf-Leaves sentry_fails failure name val (rounds text) (opened text)
        (omega arith, inr (omega arith))

  update_if-Kept :
      (b : Bool) (p : Property) (text : Text)
      → p.file ≡ some text
      → Kept (some text) (
          if b
          then after_update sentry_fails failure d p
              (update_conf sentry_fails failure (rounds text) name val (opened text))
          else ok (some open_error) p)
  update_if-Kept true p text e = after_update-Kept p text _ (opened-Leaves text)
  update_if-Kept false p text e = e

  update_found-Kept :
      (p : Property) (file : Option Text)
      → p.file ≡ file
      → Kept file (update_found sentry_fails failure d name val p file)
  update_found-Kept p none e = inl e
  update_found-Kept p (some text) e = update_if-Kept d.opens p text e

  weaker-Kept : (o : Outcome Property (Option Error)) → Kept (some []) o → Kept none o
  weaker-Kept (ok code q) h = inr h
  weaker-Kept (threw e q) h = h
  weaker-Kept fault h = h
  weaker-Kept out_of_fuel h = h

  new_file-Kept :
      (b : Bool) (p : Property)
      → p.file ≡ none
      → Kept none
          (update_file sentry_fails failure d name val (new_file sentry_fails failure d b p))
  new_file-Kept true p e =
      weaker-Kept
        (update_file sentry_fails failure d name val (new_file sentry_fails failure d true p))
        (update_found-Kept (new_file sentry_fails failure d true p) (some []) refl)
  new_file-Kept false p e =
      subst (λ file. Kept none (update_found sentry_fails failure d name val p file)) (sym e)
        (update_found-Kept p none e)

  with_directory-Kept :
      (p : Property) (made : Option Error)
      → p.file ≡ none
      → Kept none (with_directory sentry_fails failure d name val p made)
  with_directory-Kept p none e = new_file-Kept d.makes_file p e
  with_directory-Kept p (some error) e = inl e

  parent_if-Kept :
      (b : Bool) (p : Property)
      → p.file ≡ none
      → Kept none (
          if b
          then update_file sentry_fails failure d name val
              (new_file sentry_fails failure d d.makes_file p)
          else with_directory sentry_fails failure d name val p d.create_directories)
  parent_if-Kept true p e = new_file-Kept d.makes_file p e
  parent_if-Kept false p e = with_directory-Kept p d.create_directories e

  set_found-Kept :
      (p : Property) (file : Option Text)
      → p.file ≡ file
      → Kept file (set_found sentry_fails failure d name val p file)
  set_found-Kept p (some text) e =
      subst (λ file. Kept (some text) (update_found sentry_fails failure d name val p file)) (sym e)
        (update_found-Kept p (some text) e)
  set_found-Kept p none e = parent_if-Kept d.parent_exists p e

  -- Whatever name and value it is given, whatever the file contains and the disk allows, setValue of a
  -- property in a file returns, and the file has the text that it had before; a file that was not there
  -- is at most made, and empty.
  pub set_value-Kept : (p : Property) → Kept p.file (set_value sentry_fails failure d name val p)
  unfolding set_value
  set_value-Kept p = set_found-Kept p p.file refl
