-- ===== src/DeviceTree/Header.antt =====
-- kernel/Hardware/DeviceTree.c, lines 31 to 106: the header is read, printed and checked.
pub mod Bounds
pub mod Encode
use charcoalos.DeviceTree.Types.{plus, read32, Blob, DtbHeader}
use charcoalos.Console.{literal, print_value, console_print}
use charcoalos.Panic.{panic}
use charcoalos.Prelude.{ℕ, ◌+◌, not, map, ltb, leb, ◌==◌, if◌then◌else◌, String}
use charcoalos.Machine.{◌>>=◌, ◌>>◌, Kernel, pure}

-- `sizeof(struct DTBHeader)`.
abbrev sizeof_dtb_header : ℕ
sizeof_dtb_header = 40

-- What is read after the magic number and the total size.
read_fields : Blob → ℕ → ℕ → Kernel DtbHeader
read_fields b magic total_size = do
  off_struct ← read32 b (plus b.dtb 8)
  off_strings ← read32 b (plus b.dtb 12)
  off_rsvmap ← read32 b (plus b.dtb 16)
  version ← read32 b (plus b.dtb 20)
  last_comp ← read32 b (plus b.dtb 24)
  boot_cpuid ← read32 b (plus b.dtb 28)
  size_strings ← read32 b (plus b.dtb 32)
  size_struct ← read32 b (plus b.dtb 36)
  pure (record {
    magic = magic;
    total_size = total_size;
    off_dt_struct = off_struct;
    off_dt_strings = off_strings;
    off_mem_rsvmap = off_rsvmap;
    version = version;
    last_comp_version = last_comp;
    boot_cpuid_phys = boot_cpuid;
    size_dt_strings = size_strings;
    size_dt_struct = size_struct;
  })

read_sized : Blob → ℕ → Kernel DtbHeader
read_sized b magic = do
  total_size ← read32 b (plus b.dtb 4)
  if ltb total_size sizeof_dtb_header
      then panic "dtb table size smaller than expected header size"
      else read_fields b magic total_size

pub read_header : Blob → Kernel DtbHeader
read_header b = do
  magic ← read32 b b.dtb
  if not (magic == 0xd00dfeed)
      then panic
          "The hardware could not be recognized because the device table blob is not in the expected format."
      else read_sized b magic

print_field : String → ℕ → Kernel (Unit {0})
print_field label v = do
  console_print (literal label)
  print_value 4 v
  console_print (literal "\n")

pub print_header : DtbHeader → Kernel (Unit {0})
unfolding print_field
print_header h = do
  print_field "Device table blob (DTB) recognized with magic " h.magic
  print_field "  Size:               0x" h.total_size
  print_field "  Struct offset:      0x" h.off_dt_struct
  print_field "  Strings offset:     0x" h.off_dt_strings
  print_field "  Memory rsv map:     0x" h.off_mem_rsvmap
  print_field "  Version:            0x" h.version
  print_field "  Last comp version:  0x" h.last_comp_version
  print_field "  Boot cpuid phys:    0x" h.boot_cpuid_phys
  print_field "  Strings size:       0x" h.size_dt_strings
  print_field "  Struct size:        0x" h.size_dt_struct

-- The sums are of 64 bits and do not wrap.
pub check_header : DtbHeader → Kernel (Unit {0})
check_header h =
    if leb h.total_size h.off_mem_rsvmap
    then panic "Memory reservation map is out of bounds"
    else if ltb h.total_size (h.off_dt_struct + h.size_dt_struct)
    then panic "DTB struct offset is out of bounds"
    else if ltb h.total_size (h.off_dt_strings + h.size_dt_strings)
    then panic "DTB string offset is out of bounds"
    else pure tt
