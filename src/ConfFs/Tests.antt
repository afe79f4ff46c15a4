-- ===== src/ConfFs/Tests.antt =====
-- The configuration's directory with one file, and a handle of it.
use gd2fuse.Base.{◌≡◌, true, none, some, [], codes, arith}
use gd2fuse.Node.{zero_time, Timespec}
use gd2fuse.Property.{Casts, Property, Store, uint, uint_type}
use gd2fuse.ConfFs.{ContentHandle, write}
use gd2fuse.ConfFs.Access.{WriteOutcome, write_lem}
use gd2fuse.ConfFs.Reading.{read_blocks, read_blocks-whole}

abbrev size : Property
size = record {
  upstream = record {
    p = record {
      name = codes "cache_max_size";
      type = uint;
      enum_code = none;
      default_value = codes "100";
      change_rt = true;
      description = [];
    };
    type = uint_type;
  };
  cell = 0;
}

abbrev store : Store
store _ = record { value = []; last_change = zero_time }

abbrev lib : Casts
lib = record { cast_uint = λ s. true; cast_bool = λ s. true; native = λ s. true }

abbrev noon : Timespec
noon = record { tv_sec = 43200; tv_nsec = 0 }

abbrev handle : ContentHandle
handle = record { p = size; s = codes "value: 100"; error = 0 }

write_lem_example :
    WriteOutcome lib noon handle (codes "7") 0 store (write lib noon handle (codes "7") 0 store)
write_lem_example = write_lem lib noon handle (codes "7") 0 store (omega arith)

read_blocks-whole_example : read_blocks 20 handle 4 0 ≡ some (codes "value: 100")
read_blocks-whole_example = read_blocks-whole handle 4 20 (omega arith) (omega arith) (omega arith)
