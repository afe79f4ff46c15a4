-- ===== src/PropertyList/Tests.antt =====
-- A list of two properties, with the types that are registered.
use gd2fuse.Base.{◌≡◌, ◌≢◌, true, none, some, List, [], ◌∷◌, codes, Text, nat_eq, arith}
use gd2fuse.Node.{zero_time}
use gd2fuse.Property.{PropDefi, type_name, uint, bool, uint_type, oint_type, bool_type, path_type}
use gd2fuse.PropertyList.{Memory, PropsMap, get_type, type_name_eq, init}
use gd2fuse.PropertyList.Total.{init-FromTable}
use gd2fuse.PropertyList.Fresh.{IsFresh}
use gd2fuse.PropertyList.Lookup.{FromTable}

abbrev rows : List PropDefi
rows =
    record {
      name = codes "sync";
      type = bool;
      enum_code = none;
      default_value = codes "true";
      change_rt = true;
      description = [];
    }
    ∷ record {
      name = codes "cache_max_size";
      type = uint;
      enum_code = none;
      default_value = codes "100";
      change_rt = true;
      description = [];
    }
    ∷ []

abbrev memory : Memory
memory = record {
  registry = record {
    regular_types = bool_type ∷ oint_type ∷ path_type ∷ uint_type ∷ [];
    enum_types = [];
  };
  store = λ a. record { value = []; last_change = zero_time };
  fresh = 0;
}

bool_known : get_type memory.registry bool ≢ none
unfolding get_type type_name_eq type_name
bool_known h = ground arith

uint_known : get_type memory.registry uint ≢ none
unfolding get_type type_name_eq type_name
uint_known h = ground arith

init-FromTable_example :
    (s : PropsMap × Memory) × (init rows [] memory ≡ some s)
    × IsFresh s
    × ((name : Text) → FromTable rows s name)
init-FromTable_example = init-FromTable rows [] memory (bool_known, (uint_known, tt))
