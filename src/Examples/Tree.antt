-- ===== src/Examples/Tree.antt =====
-- The device tree parser on a small blob with one memory region.
use charcoalos.DeviceTree.Property.MissingType.{use_property-MissingType}
use charcoalos.DeviceTree.Property.Bounds.{read_property-Ends, IsBetween}
use charcoalos.DeviceTree.Walk.Bounds.{walk_structure-Ends}
use charcoalos.DeviceTree.Reserved.Bounds.{IsReserving, read_reserved-Ends}
use charcoalos.DeviceTree.Reserved.{read_reserved}
use charcoalos.DeviceTree.Walk.{walk_structure}
use charcoalos.DeviceTree.Property.{use_property, read_property, Walk}
use charcoalos.Console.{literal}
use charcoalos.DeviceTree.Parse.Sound.{parse_device_tree_blob-Ends}
use charcoalos.DeviceTree.Types.{HardwareInfo, Blob, DtbHeader}
use charcoalos.DeviceTree.Sound.{IsPlaced, IsSound, Refused, IsFilled}
use charcoalos.DeviceTree.Parse.{parse_device_tree_blob}
use charcoalos.Machine.Ends.{Ends}
use charcoalos.Machine.{stopped, fault}
use charcoalos.Examples.{quiet_machine, no_regions}
use charcoalos.Prelude.{
  ℕ, zero, suc, ◌+◌, ◌≡◌, refl, Bool, true, ◌&&◌, none, some, List, [], ◌∷◌, ◌++◌, arith, ltb, drop,
  All, Bytes, IsByte,
}

abbrev header_bytes : Bytes
header_bytes =
    208 ∷ 13 ∷ 254 ∷ 237 ∷ 0 ∷ 0 ∷ 0 ∷ 219 ∷ 0 ∷ 0 ∷ 0 ∷ 56 ∷ 0 ∷ 0 ∷ 0 ∷ 164 ∷ 0 ∷ 0 ∷ 0 ∷ 40 ∷ 0
    ∷ 0 ∷ 0 ∷ 17 ∷ 0 ∷ 0 ∷ 0 ∷ 16 ∷ 0 ∷ 0 ∷ 0 ∷ 0 ∷ 0 ∷ 0 ∷ 0 ∷ 55 ∷ 0 ∷ 0 ∷ 0 ∷ 108 ∷ []

abbrev reserved_bytes : Bytes
reserved_bytes = 0 ∷ 0 ∷ 0 ∷ 0 ∷ 0 ∷ 0 ∷ 0 ∷ 0 ∷ 0 ∷ 0 ∷ 0 ∷ 0 ∷ 0 ∷ 0 ∷ 0 ∷ 0 ∷ []

abbrev structure_bytes : Bytes
structure_bytes =
    0 ∷ 0 ∷ 0 ∷ 1 ∷ 0 ∷ 0 ∷ 0 ∷ 0 ∷ 0 ∷ 0 ∷ 0 ∷ 3 ∷ 0 ∷ 0 ∷ 0 ∷ 4 ∷ 0 ∷ 0 ∷ 0 ∷ 0 ∷ 0 ∷ 0 ∷ 0 ∷ 2
    ∷ 0 ∷ 0 ∷ 0 ∷ 3 ∷ 0 ∷ 0 ∷ 0 ∷ 4 ∷ 0 ∷ 0 ∷ 0 ∷ 15 ∷ 0 ∷ 0 ∷ 0 ∷ 1 ∷ 0 ∷ 0 ∷ 0 ∷ 1 ∷ 109 ∷ 101
    ∷ 109 ∷ 111 ∷ 114 ∷ 121 ∷ 0 ∷ 0 ∷ 0 ∷ 0 ∷ 0 ∷ 3 ∷ 0 ∷ 0 ∷ 0 ∷ 7 ∷ 0 ∷ 0 ∷ 0 ∷ 27 ∷ 109 ∷ 101
    ∷ 109 ∷ 111 ∷ 114 ∷ 121 ∷ 0 ∷ 0 ∷ 0 ∷ 0 ∷ 0 ∷ 3 ∷ 0 ∷ 0 ∷ 0 ∷ 12 ∷ 0 ∷ 0 ∷ 0 ∷ 39 ∷ 0 ∷ 0 ∷ 0
    ∷ 0 ∷ 64 ∷ 0 ∷ 0 ∷ 0 ∷ 8 ∷ 0 ∷ 0 ∷ 0 ∷ 0 ∷ 0 ∷ 0 ∷ 2 ∷ 0 ∷ 0 ∷ 0 ∷ 2 ∷ 0 ∷ 0 ∷ 0 ∷ 9 ∷ []

abbrev strings_bytes : Bytes
strings_bytes =
    35 ∷ 97 ∷ 100 ∷ 100 ∷ 114 ∷ 101 ∷ 115 ∷ 115 ∷ 45 ∷ 99 ∷ 101 ∷ 108 ∷ 108 ∷ 115 ∷ 0 ∷ 35 ∷ 115
    ∷ 105 ∷ 122 ∷ 101 ∷ 45 ∷ 99 ∷ 101 ∷ 108 ∷ 108 ∷ 115 ∷ 0 ∷ 100 ∷ 101 ∷ 118 ∷ 105 ∷ 99 ∷ 101 ∷ 95
    ∷ 116 ∷ 121 ∷ 112 ∷ 101 ∷ 0 ∷ 114 ∷ 101 ∷ 103 ∷ 0 ∷ 0 ∷ 0 ∷ 0 ∷ 0 ∷ 0 ∷ 0 ∷ 0 ∷ 0 ∷ 0 ∷ 0 ∷ 0
    ∷ 0 ∷ []

abbrev pub small_blob : Blob
small_blob = record {
  dtb = 0x48000000;
  contents = header_bytes ++ reserved_bytes ++ structure_bytes ++ strings_bytes;
  null_page = [];
}

abbrev pub zeros : ℕ → List ℕ
zeros zero = []
zeros (suc n) = 0 ∷ zeros n

abbrev empty_header : DtbHeader
empty_header = record {
  magic = 0;
  total_size = 0;
  off_dt_struct = 0;
  off_dt_strings = 0;
  off_mem_rsvmap = 0;
  version = 0;
  last_comp_version = 0;
  boot_cpuid_phys = 0;
  size_dt_strings = 0;
  size_dt_struct = 0;
}

-- `static struct HardwareInfo hw_info = {0}`.
abbrev pub zeroed_info : HardwareInfo
zeroed_info = record {
  header = empty_header;
  address_cells = 0;
  size_cells = 0;
  physical_memory_regions = no_regions 16;
  physical_memory_region_count = 0;
  reserved_region_base_addresses = zeros 255;
  reserved_region_sizes = zeros 255;
  reserved_regions_count = 0;
}

pub zeroed_info-IsFilled : IsFilled zeroed_info
zeroed_info-IsFilled = record {
  regions_length = refl;
  regions_count = omega arith;
  regions_usable = tt;
  bases_length = refl;
  sizes_length = refl;
}

all_below : Bytes → Bool
all_below [] = true
all_below (x ∷ text) = ltb x 256 && all_below text

are_bytes : (text : Bytes) → all_below text ≡ true → All IsByte text
unfolding all_below
are_bytes [] h = tt
are_bytes (x ∷ text) h = ground (arith, are_bytes text)

pub small_blob-IsPlaced : IsPlaced small_blob
small_blob-IsPlaced = record {
  below = omega arith;
  bytes = are_bytes small_blob.contents (unfold all_below in refl);
}

parse_device_tree_blob-Ends_example :
    Ends Refused IsSound (parse_device_tree_blob (some zeroed_info) small_blob quiet_machine).0
parse_device_tree_blob-Ends_example =
    parse_device_tree_blob-Ends zeroed_info small_blob quiet_machine small_blob-IsPlaced
      zeroed_info-IsFilled

abbrev small_info : HardwareInfo
small_info = record zeroed_info {
  header = record empty_header {
    total_size = 219;
    off_dt_struct = 56;
    off_dt_strings = 164;
    off_mem_rsvmap = 40;
    size_dt_strings = 55;
    size_dt_struct = 108;
  };
}

small_info-IsFilled : IsFilled small_info
small_info-IsFilled = record {
  regions_length = refl;
  regions_count = omega arith;
  regions_usable = tt;
  bases_length = refl;
  sizes_length = refl;
}

read_reserved-Ends_example :
    Ends Refused
      (IsReserving small_info.header 255)
      (read_reserved small_blob small_info quiet_machine).0
read_reserved-Ends_example =
    read_reserved-Ends small_blob small_info quiet_machine small_info-IsFilled

walk_structure-Ends_example :
    Ends Refused
      (λ w. IsReserving small_info.header 255 w.info)
      (walk_structure small_blob small_info quiet_machine).0
walk_structure-Ends_example =
    walk_structure-Ends small_blob small_info quiet_machine (omega arith)
      (record { same_header = refl; filled = small_info-IsFilled; count_le = omega arith })

-- The walk inside of a node `memory` that has had no property.
abbrev memory_walk : Walk
memory_walk = record {
  dtb_cursor = 0x48000000 + 140;
  address_cells_initialized = true;
  size_cells_initialized = true;
  current_node_reg = none;
  current_node_reg_size = 0;
  current_node_device_type = none;
  node_name = literal "memory";
  node_depth = 2;
  end_tokens_encountered = 0;
  info = small_info;
}

use_property-MissingType_example :
    use_property small_blob
      (literal "reg" ++ zeros 9)
      (0x48000000 + 140)
      12
      memory_walk
      quiet_machine
    ≡ (stopped fault, quiet_machine)
use_property-MissingType_example =
    use_property-MissingType small_blob (zeros 9) (0x48000000 + 140) 12 memory_walk quiet_machine
      b'm' (drop 1 (literal "memory")) (unfold literal in refl) (omega arith) refl
      (unfold literal in (omega arith))

read_property-Ends_example :
    Ends Refused
      (IsBetween small_info.header memory_walk.dtb_cursor (0x48000000 + 164))
      (read_property small_blob (0x48000000 + 164) memory_walk quiet_machine).0
read_property-Ends_example =
    read_property-Ends small_blob small_info.header (0x48000000 + 164) memory_walk quiet_machine
      (omega arith) (omega arith)
      (record { same_header = refl; filled = small_info-IsFilled; count_le = omega arith })
