-- ===== src/DeviceTree/Types.antt =====
-- kernel/Hardware/DeviceTree.h, and addresses in the device tree blob.
use charcoalos.Memory.{MemoryRegion}
use charcoalos.Machine.{or_fault, Kernel}
use charcoalos.Endian.{read_be64_from_address, read_be32_from_address}
use charcoalos.Prelude.{ℕ, ◌+◌, ◌-◌, List, [], ltb, if◌then◌else◌, drop, u64, Bytes}

pub record DtbHeader : Type 0 where
  pub magic : ℕ
  pub total_size : ℕ
  pub off_dt_struct : ℕ
  pub off_dt_strings : ℕ
  pub off_mem_rsvmap : ℕ
  pub version : ℕ
  pub last_comp_version : ℕ
  pub boot_cpuid_phys : ℕ
  pub size_dt_strings : ℕ
  pub size_dt_struct : ℕ

-- Arrays are lists of their sixteen or 255 elements.
pub record HardwareInfo : Type 0 where
  pub header : DtbHeader
  pub address_cells : ℕ
  pub size_cells : ℕ
  pub physical_memory_regions : List MemoryRegion
  pub physical_memory_region_count : ℕ
  pub reserved_region_base_addresses : List ℕ
  pub reserved_region_sizes : List ℕ
  pub reserved_regions_count : ℕ

-- The object that the blob is: where it lies, and its bytes, with those that can be read behind it.
-- `null_page` is what a read through a null pointer finds, which C leaves undefined: the bytes from the
-- address 0 on where there are some, none where the read faults.
pub record Blob : Type 0 where
  pub dtb : ℕ
  pub contents : Bytes
  pub null_page : Bytes

-- `uintptr_t` addition.
abbrev pub plus : ℕ → ℕ → ℕ
plus a b = u64 (a + b)

-- The bytes from an address to the end of the blob; none outside of it.
abbrev pub pointed : Blob → ℕ → Bytes
pointed b address = if ltb address b.dtb then [] else drop (address - b.dtb) b.contents

unfoldable pub read32 : Blob → ℕ → Kernel ℕ
read32 b address = or_fault (read_be32_from_address (pointed b address))

unfoldable pub read64 : Blob → ℕ → Kernel ℕ
read64 b address = or_fault (read_be64_from_address (pointed b address))
