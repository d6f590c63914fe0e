-- ===== src/DeviceTree/Property.antt =====
-- kernel/Hardware/DeviceTree.c, lines 247 to 360: one property of a node.
pub mod Align
pub mod Bounds
pub mod Names
pub mod Roles
pub mod Kinds
pub mod Regions
pub mod Met
pub mod MissingType
use charcoalos.DeviceTree.Types.{plus, HardwareInfo, read32, Blob, pointed}
use charcoalos.Strings.{string_compare_with_length}
use charcoalos.Memory.{physical_memory_regions}
use charcoalos.Console.{literal}
use charcoalos.Panic.{panic}
use charcoalos.Prelude.{
  ℕ, zero, suc, ◌-◌, ◌%◌, Bool, true, not, ◌&&◌, Option, none, some, [], ltb, leb, ◌==◌,
  if◌then◌else◌, length, Bytes, String,
}
use charcoalos.Machine.{◌>>=◌, or_fault, Kernel, pure}

-- The variables of the walk. A `char *` or `void *` that may be null is an option.
pub record Walk : Type 0 where
  pub dtb_cursor : ℕ
  pub address_cells_initialized : Bool
  pub size_cells_initialized : Bool
  pub current_node_reg : Option Bytes
  pub current_node_reg_size : ℕ
  pub current_node_device_type : Option Bytes
  pub node_name : Bytes
  pub node_depth : ℕ
  pub end_tokens_encountered : ℕ
  pub info : HardwareInfo

-- The bytes behind a pointer that may be null.
abbrev pub object : Blob → Option Bytes → Bytes
object b none = b.null_page
object b (some bytes) = bytes

-- `string_compare_with_length(text, constant, n, true)`.
unfoldable pub is_string : Bytes → String → ℕ → Kernel Bool
is_string text constant n = or_fault (string_compare_with_length text (literal constant) n true)

-- `while (dtb_cursor % 4) ++dtb_cursor;` ends in three rounds.
align_loop : ℕ → ℕ → ℕ
align_loop zero cursor = cursor
align_loop (suc fuel) cursor =
    let rest = align_loop fuel (plus cursor 1) in if cursor % 4 == 0 then cursor else rest

pub align : ℕ → ℕ
unfolding align_loop
align cursor = align_loop 3 cursor

save_address_cells : Blob → ℕ → ℕ → Walk → Kernel Walk
save_address_cells b current_data_bytes prop_length w =
    if not (prop_length == 4)
    then panic "Malformed DTB: #address-cells value is not 32-bit"
    else (do
      v ← read32 b current_data_bytes
      pure (record w {
        address_cells_initialized = true;
        info = record w.info { address_cells = v };
      }))

save_size_cells : Blob → ℕ → ℕ → Walk → Kernel Walk
save_size_cells b current_data_bytes prop_length w =
    if not (prop_length == 4) then panic "Malformed DTB: #size-cells value is not 32-bit" else (do
      v ← read32 b current_data_bytes
      pure (record w { size_cells_initialized = true; info = record w.info { size_cells = v } }))

-- The cell counts, from the node whose name is empty.
pub save_cells : Blob → Bytes → ℕ → ℕ → Walk → Kernel Walk
unfolding save_address_cells save_size_cells
save_cells b prop_name current_data_bytes prop_length w = do
  is_root ← is_string w.node_name "" 0
  if is_root
      then (do
        is_address ← is_string prop_name "#address-cells" 14
        if is_address then save_address_cells b current_data_bytes prop_length w else (do
          is_size ← is_string prop_name "#size-cells" 11
          if is_size then save_size_cells b current_data_bytes prop_length w else pure w))
      else pure w

save_device_type : Blob → ℕ → ℕ → Walk → Kernel Walk
save_device_type b current_data_bytes prop_length w =
    if prop_length == 7
    then (do
      is_memory ← is_string (pointed b current_data_bytes) "memory" 6
      pure (
          if is_memory then record w { current_node_device_type = some (literal "memory") } else w))
    else pure w

-- `device_type` and `reg` of the current node.
pub save_node : Blob → Bytes → ℕ → ℕ → Walk → Kernel Walk
unfolding save_device_type
save_node b prop_name current_data_bytes prop_length w = do
  is_device_type ← is_string prop_name "device_type" 11
  if is_device_type then save_device_type b current_data_bytes prop_length w else (do
    is_reg ← is_string prop_name "reg" 3
    pure (
        if is_reg
        then record w {
          current_node_reg = some (pointed b current_data_bytes);
          current_node_reg_size = prop_length;
        }
        else w))

pub decode_memory : Bytes → Walk → Kernel Walk
decode_memory reg w =
    if w.address_cells_initialized && w.size_cells_initialized
    then (do
      (regions, count) ←
          physical_memory_regions w.info.physical_memory_regions w.info.address_cells
            w.info.size_cells reg w.current_node_reg_size
      pure (record w {
        info = record w.info {
          physical_memory_regions = regions;
          physical_memory_region_count = count;
        };
      }))
    else panic
        "Malformed DTB: must initialize both address cells and size cells before reading memory reg"

-- `if (current_node_reg)`, lines 340 to 358.
pub check_memory : Blob → Option Bytes → Walk → Kernel Walk
unfolding decode_memory
check_memory b none w = pure w
check_memory b (some reg) w = do
  is_memory ← is_string (object b w.current_node_device_type) "memory" 6
  if is_memory then decode_memory reg w else pure w

-- From the name of the property on.
pub use_property : Blob → Bytes → ℕ → ℕ → Walk → Kernel Walk
use_property b prop_name current_data_bytes prop_length w = do
  w1 ← save_cells b prop_name current_data_bytes prop_length w
  w2 ← save_node b prop_name current_data_bytes prop_length w1
  check_memory b w2.current_node_reg w2

-- `case FDT_PROP`, with the cursor behind the token.
unfoldable pub read_property : Blob → ℕ → Walk → Kernel Walk
read_property b struct_end w =
    let current_data_bytes = plus (plus w.dtb_cursor 4) 4 in
    if ltb (struct_end - w.dtb_cursor) 8
    then panic "Malformed DTB: property metadata overflow"
    else (do
      prop_length ← read32 b w.dtb_cursor
      prop_name_offset ← read32 b (plus w.dtb_cursor 4)
      if ltb (struct_end - current_data_bytes) prop_length
          then panic "Malformed DTB: property length overflow"
          else (let after = align (plus current_data_bytes prop_length) in
              let h = w.info.header in
              if ltb struct_end after
              then panic "Malformed DTB: property value overflow"
              else if leb h.size_dt_strings prop_name_offset
              then panic "Malformed DTB: property name overflow"
              else use_property b (pointed b (plus (plus b.dtb h.off_dt_strings) prop_name_offset))
                  current_data_bytes prop_length (record w { dtb_cursor = after })))
