-- ===== src/PropertyFile.antt =====
-- Properties with their values in a file: FileFirstProperty, updateConf and readConf of
-- src/control/props/AbstractFileStaticInitPropertiesList.cpp, over FileStream. What the file system allows
-- is a parameter. The name, type and default of a property are those of the one upstream.
pub mod FileStream
mod Unchanged
mod SetValue
mod Lines
mod Tests
use gd2fuse.Base.{
  ℕ, zero, suc, ◌-◌, Bool, true, false, Option, none, some, List, [], ◌∷◌, ◌==◌, nat_eq, list_eq,
  if◌then◌else◌, Text, codes, length,
}
use gd2fuse.AppError.{code_value, bad_file_operation, error_modify_conf_file}
use gd2fuse.Errno.{eacces}
use gd2fuse.Outcome.{
  Error, app_category, system_error, Outcome, ok, threw, fault, out_of_fuel, Cmd, pure, throw,
  and_then, ◌>>=◌, ◌>>◌,
}
use gd2fuse.PropertyFile.FileStream.{
  Stream, opened, text_of, match_line, getline, tellp, read_rest, seekg, put,
}

-- What updateConf does with a line: it has the value, or another one of a length, or is of no interest.
pub data Found : Type 0 where
  same_value : Found
  other_value : ℕ → Found
  absent : Found

abbrev pub found_in : Text → Text → Option (Text × Text) → Found
found_in name val none = absent
found_in name val (some (n, v)) =
    if n == name then (if v == val then same_value else other_value (length v)) else absent

module _ (sentry_fails : Bool) (failure : Error) where
  -- Behind the line that has another value, of a length.
  pub rewrite_value : Text → ℕ → Cmd Stream Bool
  unfolding read_rest put
  rewrite_value val size = do
    at ← tellp
    rest ← read_rest failure
    seekg (at - size)
    put sentry_fails failure val
    put sentry_fails failure (codes "\n")
    put sentry_fails failure rest
    pure true

  -- Behind the loop.
  pub append_line : Text → Text → Cmd Stream Bool
  unfolding put
  append_line name val = do
    put sentry_fails failure name
    put sentry_fails failure (codes "=")
    put sentry_fails failure val
    put sentry_fails failure (codes "\n")
    pure true

  -- What is done behind a line, with the further rounds.
  abbrev pub with_found : Cmd Stream Bool → Text → Found → Cmd Stream Bool
  with_found again val same_value = pure false
  with_found again val (other_value size) = rewrite_value val size
  with_found again val absent = again

  -- A round of the loop, for whether the end has been seen, or what is behind the loop.
  abbrev pub update_round : Cmd Stream Bool → Text → Text → Bool → Cmd Stream Bool
  update_round again name val true = append_line name val
  update_round again name val false = do
    line ← getline failure
    with_found again val (found_in name val (match_line line))

  -- updateConf, for a number of rounds
  unfoldable pub update_conf : ℕ → Text → Text → Cmd Stream Bool
  update_conf zero name val s = out_of_fuel
  update_conf (suc k) name val s = update_round (update_conf k name val) name val s.eof s

-- the value of a line with the name
abbrev pub value_in : Text → Option (Text × Text) → Option Text
value_in name none = none
value_in name (some (n, v)) = if n == name then some v else none

abbrev pub with_value : Cmd Stream (Option Text) → Option Text → Cmd Stream (Option Text)
with_value again (some v) = pure (some v)
with_value again none = again

abbrev pub read_round : Error → Cmd Stream (Option Text) → Text → Bool → Cmd Stream (Option Text)
read_round failure again name true = pure none
read_round failure again name false = do
  line ← getline failure
  with_value again (value_in name (match_line line))

-- readConf, for a number of rounds: the value, if it is found
unfoldable pub read_conf : Error → ℕ → Text → Cmd Stream (Option Text)
read_conf failure zero name s = out_of_fuel
read_conf failure (suc k) name s = read_round failure (read_conf failure k name) name s.eof s

-- Rounds enough for a text: one for each byte, one for the last line and one to see the end.
abbrev pub rounds : Text → ℕ
rounds text = suc (suc (length text))

-- The file and the fields `_value` and `_lastChange`, of which is kept whether it is set.
pub record Property : Type 0 where
  pub file : Option Text
  pub value : Text
  pub changed : Bool

-- Whether the file can be opened, whether its directory exists or what create_directories throws, and
-- whether a new file can be made.
pub record Disk : Type 0 where
  pub opens : Bool
  pub parent_exists : Bool
  pub create_directories : Option Error
  pub makes_file : Bool

abbrev pub bad_file : Error
bad_file = record {
  value = code_value bad_file_operation;
  category = app_category;
  detail = "Can't open file '%1' while reading propery '%2'";
}

abbrev pub modify_error : Error
modify_error = record {
  value = code_value error_modify_conf_file;
  category = app_category;
  detail = "";
}

abbrev pub open_error : Error
open_error = system_error eacces "Can not open file '%1'"

module _ (sentry_fails : Bool) (failure : Error) (d : Disk) where
  -- what readConf leaves in the property
  abbrev pub after_read : Property → Outcome Stream (Option Text) → Outcome Property (Unit {0})
  after_read p (ok none s) = ok tt p
  after_read p (ok (some v) s) = ok tt (record p { value = v; changed = true })
  after_read p (threw e s) = threw e p
  after_read p fault = fault
  after_read p out_of_fuel = out_of_fuel

  abbrev pub refresh_found : Text → Property → Option Text → Outcome Property (Unit {0})
  refresh_found name p none = ok tt p
  refresh_found name p (some text) =
      if d.opens
      then after_read p (read_conf failure (rounds text) name (opened text))
      else threw bad_file p

  abbrev pub refresh : Text → Cmd Property (Unit {0})
  refresh name p = refresh_found name p p.file

  -- getValue, with the name and the value of the property upstream
  unfoldable pub get_value : Text → Text → Cmd Property Text
  unfolding read_conf
  get_value name upstream p =
      (do refresh name; (λ q. ok (if q.changed then q.value else upstream) q)) p

  -- The try block of setValue gives the error that it returns, if there is one.
  abbrev pub after_update : Property → Outcome Stream Bool → Outcome Property (Option Error)
  after_update p (ok true s) = ok none (record p { file = some (text_of s); changed = true })
  after_update p (ok false s) = ok none (record p { file = some (text_of s) })
  after_update p (threw e s) = ok (some modify_error) (record p { file = some (text_of s) })
  after_update p fault = fault
  after_update p out_of_fuel = out_of_fuel

  abbrev pub update_found : Text → Text → Property → Option Text → Outcome Property (Option Error)
  update_found name val p none = ok (some open_error) p
  update_found name val p (some text) =
      if d.opens
      then after_update p (update_conf sentry_fails failure (rounds text) name val (opened text))
      else ok (some open_error) p

  -- From the opening of the file on.
  abbrev pub update_file : Text → Text → Cmd Property (Option Error)
  update_file name val p = update_found name val p p.file

  -- `fs::ofstream newFile(p)`
  abbrev pub new_file : Bool → Property → Property
  new_file true p = record p { file = some [] }
  new_file false p = p

  -- behind create_directories
  abbrev pub with_directory :
      Text → Text → Property → Option Error → Outcome Property (Option Error)
  with_directory name val p none = update_file name val (new_file d.makes_file p)
  with_directory name val p (some e) = ok (some modify_error) p

  abbrev pub set_found : Text → Text → Property → Option Text → Outcome Property (Option Error)
  set_found name val p (some text) = update_file name val p
  set_found name val p none =
      if d.parent_exists
      then update_file name val (new_file d.makes_file p)
      else with_directory name val p d.create_directories

  unfoldable pub set_value : Text → Text → Cmd Property (Option Error)
  unfolding update_conf
  set_value name val p = set_found name val p p.file
