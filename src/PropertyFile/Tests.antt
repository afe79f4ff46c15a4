-- ===== src/PropertyFile/Tests.antt =====
-- A configuration file of two lines, of which the second has no line break.
use gd2fuse.Base.{
  true, false, ◌≡◌, refl, none, some, [], ◌∷◌, nat_eq, list_eq, arith, Text, codes, is_space,
}
use gd2fuse.Outcome.{Error, ok, system_error}
use gd2fuse.PropertyFile.FileStream.{split_line, getline, match_line, read_rest}
use gd2fuse.PropertyFile.{Property, Disk, rewrite_value, set_value, get_value, modify_error}
use gd2fuse.PropertyFile.SetValue.{Kept, set_value-Kept}
use gd2fuse.PropertyFile.Lines.{unlines, value_of, get_value-lines}

abbrev failure : Error
failure = system_error 1 "basic_ios::clear: iostream error"

abbrev disk : Disk
disk = record { opens = true; parent_exists = true; create_directories = none; makes_file = true }

abbrev first_line : Text
first_line = codes "umask = 022"

abbrev last_line : Text
last_line = codes " gdde=html"

abbrev conf : Property
conf = record { file = some (unlines (first_line ∷ []) last_line); value = []; changed = false }

set_value-Kept_example :
    Kept conf.file (set_value false failure disk (codes "umask") (codes "027") conf)
set_value-Kept_example = set_value-Kept false failure disk (codes "umask") (codes "027") conf

-- Each byte of a line is checked against the line break.
get_value-lines_example :
    get_value false failure disk (codes "gdde") (codes "csv") conf
    ≡ value_of failure (codes "gdde") (codes "csv") conf (first_line ∷ []) last_line
get_value-lines_example =
    get_value-lines false failure disk (codes "gdde") (codes "csv") conf (first_line ∷ []) last_line
      refl refl ((omega arith, omega arith), tt) (omega arith, omega arith)

match_line-spaces : match_line (codes "  umask = 022") ≡ some (codes "umask", codes "022")
unfolding match_line is_space nat_eq
match_line-spaces = refl

match_line-path : match_line (codes "ssl-ca-path=/etc") ≡ none
unfolding match_line is_space nat_eq
match_line-path = refl

-- A value that differs is not replaced: the failure at the end of the file becomes an error.
set_value-umask :
    set_value false failure disk (codes "umask") (codes "027") conf ≡ ok (some modify_error) conf
unfolding set_value getline split_line match_line is_space nat_eq list_eq read_rest rewrite_value
set_value-umask = refl
