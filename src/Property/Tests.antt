-- ===== src/Property/Tests.antt =====
-- Properties as the global configuration has them, and a library's conversions.
use gd2fuse.Base.{refl, Bool, true, nat_eq, list_eq, ◌||◌, none, [], codes, Text, same}
use gd2fuse.Node.{Timespec, zero_time}
use gd2fuse.Property.{Casts, Property, Store, uint, uint_type, set_value, check_validity}
use gd2fuse.Property.Values.{IsValid, set_value-IsValid}

zero_or_one : Text → Bool
zero_or_one s = same s (codes "0") || same s (codes "1")

abbrev lib : Casts
lib = record { cast_uint = λ s. true; cast_bool = zero_or_one; native = λ s. true }

abbrev cache_max_size : Property
cache_max_size = record {
  upstream = record {
    p = record {
      name = codes "cache_max_size";
      type = uint;
      enum_code = none;
      default_value = codes "100";
      change_rt = true;
      description = [];
    };
    type = uint_type;
  };
  cell = 1;
}

abbrev empty_store : Store
empty_store _ = record { value = []; last_change = zero_time }

abbrev noon : Timespec
noon = record { tv_sec = 43200; tv_nsec = 0 }

set_value-IsValid_example :
    IsValid lib cache_max_size (set_value lib noon cache_max_size (codes "5") empty_store).1
unfolding check_validity
set_value-IsValid_example =
    set_value-IsValid lib noon cache_max_size cache_max_size (codes "5") empty_store (λ _. refl)
      (record { checked = λ h. cc })
