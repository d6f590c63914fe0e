-- ===== src/DeviceTree/Reserved.antt =====
-- kernel/Hardware/DeviceTree.c, lines 108 to 149: the reserved memory regions.
pub mod Bounds
pub mod Entry
pub mod Round
pub mod Encode
pub mod RoundTrip
use charcoalos.DeviceTree.Types.{plus, HardwareInfo, Blob, read64}
use charcoalos.Console.{literal, print_value, console_print, store}
use charcoalos.Panic.{panic}
use charcoalos.Prelude.{
  ℕ, zero, suc, ◌+◌, ◌*◌, Bool, true, false, ◌&&◌, List, ltb, leb, ◌==◌, if◌then◌else◌, length, set,
  u64,
}
use charcoalos.Machine.{◌>>=◌, ◌>>◌, fault, overrun, stop, unfinished, Kernel, pure}

-- An element of an array of numbers is written.
store_number : List ℕ → ℕ → ℕ → Kernel (List ℕ)
store_number array i v = if ltb i (length array) then pure (set array i v) else stop overrun

report_region : ℕ → ℕ → Kernel (Unit {0})
report_region base size = do
  console_print (literal "Reserved memory region at base address 0x")
  print_value 8 base
  console_print (literal " of size 0x")
  print_value 8 size
  console_print (literal "\n")

-- Entry `i` is stored; true comes back with the entry that ends the table.
pub read_entry : Blob → ℕ → ℕ → HardwareInfo → Kernel (Bool × HardwareInfo)
unfolding store_number
read_entry b start i info = do
  base ← read64 b start
  bases ← store_number info.reserved_region_base_addresses i base
  size ← read64 b (plus start 8)
  sizes ← store_number info.reserved_region_sizes i size
  let stored = record info { reserved_region_base_addresses = bases; reserved_region_sizes = sizes }
  if base == 0 && size == 0 then pure (true, stored) else (do
    report_region base size
    pure (false, record stored { reserved_regions_count = u64 (info.reserved_regions_count + 1) }))

-- `while (true)` from entry `i` on. Entry 255 is refused, so 256 rounds are enough.
pub reserved_loop : ℕ → Blob → ℕ → HardwareInfo → Kernel HardwareInfo
reserved_loop zero b i info = stop unfinished
reserved_loop (suc fuel) b i info =
    let start = plus (plus b.dtb info.header.off_mem_rsvmap) (16 * i) in
    if leb 255 i
    then panic "Insufficient space to store reserved memory regions"
    else if ltb info.header.total_size (info.header.off_mem_rsvmap + (16 * i + 16))
    then panic "Reserved memory region would overflow header"
    else if leb (plus b.dtb info.header.total_size) (plus start 8)
    then pure info
    else (do
      (ended, info') ← read_entry b start i info
      if ended then pure info' else reserved_loop fuel b (i + 1) info')

pub read_reserved : Blob → HardwareInfo → Kernel HardwareInfo
read_reserved b info = do
  info' ← reserved_loop 256 b 0 (record info { reserved_regions_count = 0 })
  console_print (literal "Read 0x")
  print_value 8 info'.reserved_regions_count
  console_print (literal " reserved memory regions.\n")
  pure info'
