-- ===== src/Examples/RoundTrip.antt =====
-- The device tree parser on the blob of a tree, put together by the encoder.
use charcoalos.Console.{literal}
use charcoalos.DeviceTree.Parse.RoundTrip.{IsBlobOf, parsed, parse_device_tree_blob-IsBlobOf}
use charcoalos.DeviceTree.Property.Roles.{IsHarmless, GivesCells}
use charcoalos.DeviceTree.Walk.Memory.{IsMemoryNode}
use charcoalos.DeviceTree.Walk.Root.{Describe, IsMachine}
use charcoalos.DeviceTree.Walk.Plain.{IsPlainNode}
use charcoalos.DeviceTree.Parse.{parse_device_tree_blob}
use charcoalos.Machine.{emit, returned}
use charcoalos.Examples.{quiet_machine}
use charcoalos.Endian.Decode.{be32_bytes}
use charcoalos.DeviceTree.Walk.Properties.{Named}
use charcoalos.DeviceTree.Header.Encode.{header_fields, encode_words}
use charcoalos.DeviceTree.Reserved.Encode.{encode_table}
use charcoalos.DeviceTree.Types.{DtbHeader, Blob}
use charcoalos.DeviceTree.Encode.{
  encode_node, Node, leaf, encode_property, encode_properties, child, Property, node,
}
use charcoalos.Memory.Regions.{encode_regions}
use charcoalos.Strings.Compare.{same, terminated}
use charcoalos.Memory.{MemoryRegion}
use charcoalos.Prelude.{
  ℕ, ◌≡◌, refl, inl, inr, some, List, [], ◌∷◌, ◌++◌, arith, if◌then◌else◌, Bytes, codes,
}
use charcoalos.Examples.Tree.{zeros, zeroed_info}

abbrev pub regions_there : List MemoryRegion
regions_there = record { base_address = 0x40000000; size = 0x8000000 } ∷ []

abbrev pub reserved_there : List MemoryRegion
reserved_there = record { base_address = 0x48000000; size = 0x1000 } ∷ []

abbrev address_cells_there : Property
address_cells_there = record { name = codes "#address-cells"; value = be32_bytes 1 }

abbrev size_cells_there : Property
size_cells_there = record { name = codes "#size-cells"; value = be32_bytes 1 }

abbrev processor_reg : Property
processor_reg = record { name = codes "reg"; value = be32_bytes 0 }

abbrev memory_type : Property
memory_type = record { name = codes "device_type"; value = codes "memory" ++ (0 ∷ []) }

abbrev memory_reg : Property
memory_reg = record { name = codes "reg"; value = encode_regions 1 1 regions_there }

abbrev processor_node : Node
processor_node = node (codes "cpu@0") (processor_reg ∷ []) leaf

abbrev memory_node : Node
memory_node = node (codes "memory") (memory_type ∷ memory_reg ∷ []) leaf

abbrev pub small_tree : Node
small_tree =
    node [] (address_cells_there ∷ size_cells_there ∷ [])
      (child processor_node (child memory_node leaf))

abbrev small_strings : Bytes
small_strings = terminated (codes "#address-cells") (
    terminated (codes "#size-cells")
      (terminated (codes "device_type") (terminated (codes "reg") (zeros 14))))

abbrev pub small_offset_of : Bytes → ℕ
small_offset_of name =
    if same (codes "#address-cells") name
    then 0
    else if same (codes "#size-cells") name
    then 15
    else if same (codes "device_type") name
    then 27
    else 39

abbrev pub small_header : DtbHeader
small_header = record {
  magic = 0xd00dfeed;
  total_size = 265;
  off_dt_struct = 72;
  off_dt_strings = 208;
  off_mem_rsvmap = 40;
  version = 17;
  last_comp_version = 16;
  boot_cpuid_phys = 0;
  size_dt_strings = 57;
  size_dt_struct = 136;
}

small_structure : Bytes
unfolding encode_node encode_properties encode_property
small_structure = encode_node small_offset_of small_tree ++ be32_bytes 9

abbrev pub tree_blob : Blob
unfolding small_structure
tree_blob = record {
  dtb = 0x48000000;
  contents =
      encode_words (header_fields small_header)
      ++ (encode_table reserved_there ++ (small_structure ++ small_strings));
  null_page = zeros 8;
}

processor_reg-Named : Named tree_blob small_header small_offset_of processor_reg
unfolding small_structure
processor_reg-Named = record {
  text = ground arith;
  inside = omega arith;
  short = omega arith;
  small = omega arith;
  behind = zeros 14;
  name_is = refl;
  enough = omega arith;
}

memory_reg-Named : Named tree_blob small_header small_offset_of memory_reg
unfolding small_structure
memory_reg-Named = record {
  text = ground arith;
  inside = omega arith;
  short = omega arith;
  small = omega arith;
  behind = zeros 14;
  name_is = refl;
  enough = omega arith;
}

memory_type-Named : Named tree_blob small_header small_offset_of memory_type
unfolding small_structure
memory_type-Named = record {
  text = ground arith;
  inside = omega arith;
  short = omega arith;
  small = omega arith;
  behind = terminated (codes "reg") (zeros 14);
  name_is = refl;
  enough = omega arith;
}

size_cells_there-Named : Named tree_blob small_header small_offset_of size_cells_there
unfolding small_structure
size_cells_there-Named = record {
  text = ground arith;
  inside = omega arith;
  short = omega arith;
  small = omega arith;
  behind = terminated (codes "device_type") (terminated (codes "reg") (zeros 14));
  name_is = refl;
  enough = omega arith;
}

address_cells_there-Named : Named tree_blob small_header small_offset_of address_cells_there
unfolding small_structure
address_cells_there-Named = record {
  text = ground arith;
  inside = omega arith;
  short = omega arith;
  small = omega arith;
  behind =
      terminated (codes "#size-cells")
        (terminated (codes "device_type") (terminated (codes "reg") (zeros 14)));
  name_is = refl;
  enough = omega arith;
}

gives_cells : (p : Property) → p.value ≡ be32_bytes 1 → GivesCells 1 1 p
gives_cells p value = record { address_value = λ _. value; size_value = λ _. value }

small_tree-IsMachine : IsMachine tree_blob small_header small_offset_of 1 1 regions_there small_tree
unfolding literal IsMachine Describe IsMemoryNode IsPlainNode
small_tree-IsMachine = (
  refl,
  (address_cells_there-Named, (size_cells_there-Named, tt)),
  ((refl, gives_cells address_cells_there refl), ((refl, gives_cells size_cells_there refl), tt)),
  refl,
  inr (
    (ground arith, omega arith, (processor_reg-Named, tt), (refl, tt), tt),
    inl (
      (
        ground arith,
        omega arith,
        (memory_type-Named, (memory_reg-Named, tt)),
        (
          record { type_value = λ _. refl; reg_value = λ never. absurd (ground (arith, never)) },
          (
            record { type_value = λ never. absurd (ground (arith, never)); reg_value = λ _. refl },
            tt,
          ),
        ),
        refl,
        tt,
      ),
      tt,
    ),
  ),
)

pub tree_blob-IsBlobOf :
    IsBlobOf tree_blob small_header reserved_there small_offset_of 1 1 regions_there small_tree
unfolding small_structure encode_node encode_properties encode_property
tree_blob-IsBlobOf = record {
  somewhere = omega arith;
  top = omega arith;
  accepted = record {
    magic_is = refl;
    fields_fit = ground arith;
    header_inside = omega arith;
    rsvmap_inside = omega arith;
    struct_inside = omega arith;
    strings_inside = omega arith;
  };
  behind_header = encode_table reserved_there ++ (small_structure ++ small_strings);
  header_is = refl;
  entries = (record { base_fits = omega arith; size_fits = omega arith; not_last = refl }, tt);
  entries_fit = omega arith;
  table_inside = omega arith;
  behind_table = small_structure ++ small_strings;
  table_is = refl;
  aligned = refl;
  tree_inside = omega arith;
  behind_tree = small_strings;
  tree_is = refl;
  machine = small_tree-IsMachine;
  written = record {
    address_cells_fit = inl refl;
    size_cells_fit = inl refl;
    regions_fit = (
      (record { not_empty = omega arith; no_overflow = omega arith }, omega arith, omega arith),
      tt,
    );
    some_region = omega arith;
    at_most = omega arith;
  };
}

pub tree_blob-IsHarmless : IsHarmless tree_blob.null_page
unfolding tree_blob
tree_blob-IsHarmless = record { long = omega arith; other = refl }

parse_device_tree_blob-IsBlobOf_example :
    (text : Bytes) × (parse_device_tree_blob (some zeroed_info) tree_blob quiet_machine ≡ (
      returned (parsed small_header 1 1 regions_there reserved_there zeroed_info),
      emit quiet_machine text,
    ))
parse_device_tree_blob-IsBlobOf_example =
    parse_device_tree_blob-IsBlobOf tree_blob small_header reserved_there small_offset_of 1 1
      regions_there small_tree zeroed_info quiet_machine tree_blob-IsBlobOf tree_blob-IsHarmless
      refl refl refl
