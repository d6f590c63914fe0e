-- ===== src/DeviceTree/Parse.antt =====
-- kernel/Hardware/DeviceTree.c, `parse_device_tree_blob` as a whole.
pub mod Sound
pub mod RoundTrip
use charcoalos.DeviceTree.Header.{check_header, print_header, read_header}
use charcoalos.DeviceTree.Reserved.{read_reserved}
use charcoalos.DeviceTree.Walk.{walk_structure}
use charcoalos.DeviceTree.Types.{HardwareInfo, Blob}
use charcoalos.DeviceTree.Property.{Walk}
use charcoalos.Console.{literal, print_value, console_print}
use charcoalos.Panic.{panic}
use charcoalos.Prelude.{◌*◌, ◌/◌, not, Option, none, some, ◌==◌, if◌then◌else◌, u32}
use charcoalos.Machine.{◌>>=◌, ◌>>◌, Kernel, pure}

report_cells : HardwareInfo → Kernel (Unit {0})
report_cells info = do
  console_print (literal "Memory addresses are 0x")
  print_value 4 (u32 (32 * info.address_cells))
  console_print (literal " bits\nMemory region sizes are 0x")
  print_value 4 (u32 (32 * info.size_cells))
  console_print (literal " bits \n")

-- Behind the walk, lines 374 to 393.
finish : Walk → Kernel HardwareInfo
unfolding report_cells
finish w =
    if not (w.node_depth == 0)
    then panic "Malformed DTB: node begin / end token mismatch"
    else if not (w.end_tokens_encountered == 1)
    then panic "Malformed DTB: DTB did not include exactly one FDT_END token"
    else (do report_cells w.info; pure w.info)

parse_blob : HardwareInfo → Blob → Kernel HardwareInfo
parse_blob out_hw_info b = do
  header ← read_header b
  print_header header
  check_header header
  info ← read_reserved b (record out_hw_info { header = header })
  w ← walk_structure b info
  finish w

-- A null `out_hw_info` is `none`, a null `dtb` the address 0.
pub parse_device_tree_blob : Option HardwareInfo → Blob → Kernel HardwareInfo
parse_device_tree_blob none b = panic "The hardware info output pointer is null"
parse_device_tree_blob (some out_hw_info) b =
    if b.dtb == 0
    then panic "The hardware could not be recognized because the device table blob is null"
    else parse_blob out_hw_info b
