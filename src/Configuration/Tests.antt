-- ===== src/Configuration/Tests.antt =====
-- A configuration of one property, also below an empty one, as a session's is.
use gd2fuse.Base.{◌≡◌, sym, ◌∙◌, true, none, some, [], ◌∷◌, codes, Text, arith, list_eq, nat_eq}
use gd2fuse.Node.{zero_time, Timespec}
use gd2fuse.Property.{Casts, Property, Store, uint, uint_type}
use gd2fuse.PropertyList.{PropsMap, find_property}
use gd2fuse.Configuration.{simple, set_property}
use gd2fuse.Configuration.Refinement.{Sets, Separate, view, accepts_in, set_property-Sets}

abbrev size : Property
size = record {
  upstream = record {
    p = record {
      name = codes "cache_max_size";
      type = uint;
      enum_code = none;
      default_value = codes "100";
      change_rt = true;
      description = [];
    };
    type = uint_type;
  };
  cell = 0;
}

abbrev props : PropsMap
props = (codes "cache_max_size", size) ∷ []

abbrev store : Store
store _ = record { value = []; last_change = zero_time }

abbrev lib : Casts
lib = record { cast_uint = λ s. true; cast_bool = λ s. true; native = λ s. true }

abbrev noon : Timespec
noon = record { tv_sec = 43200; tv_nsec = 0 }

-- There is one name, and so no two properties.
only_name : (a : Text) (p : Property) → find_property props a ≡ some p → a ≡ codes "cache_max_size"
unfolding find_property
only_name a p h = ground (arith, h)

separate : Separate props
separate a b p q differ at at' = absurd (differ (only_name a p at ∙ sym (only_name b q at')))

set_property-Sets_example :
    Sets
      (accepts_in lib props)
      (view props store)
      (codes "cache_max_size")
      (codes "7")
      (set_property lib noon (simple props) (codes "cache_max_size") (codes "7") store).0
      (view props
        (set_property lib noon (simple props) (codes "cache_max_size") (codes "7") store).1)
set_property-Sets_example =
    set_property-Sets lib noon props (codes "cache_max_size") (codes "7") store separate
      (omega arith)
