-- ===== src/Memory.antt =====
-- kernel/Memory/Memory.c. The registers' bytes are an object, the cursor an offset in it; the array
-- that `out_memory_regions` points to goes in and comes back, with the count.
pub mod Regions
pub mod Safety
use charcoalos.Endian.{read_be64_from_address, read_be32_from_address}
use charcoalos.Console.{literal, print_value, console_print}
use charcoalos.Panic.{panic}
use charcoalos.Prelude.{
  ℕ, zero, suc, ◌+◌, ◌-◌, ◌*◌, ◌/◌, ◌%◌, ◌^◌, not, ◌||◌, List, ltb, ◌==◌, if◌then◌else◌, length,
  set, drop, Bytes,
}
use charcoalos.Machine.{◌>>=◌, ◌>>◌, Kernel, pure, stop, or_fault, fault, overrun}

pub record MemoryRegion : Type 0 where
  pub base_address : ℕ
  pub size : ℕ

abbrev pub uint64_max : ℕ
uint64_max = 2 ^ 64 - 1

-- `cells == 2 ? read_be64 : read_be32`, with the cursor advanced.
read_cells : ℕ → Bytes → ℕ → Kernel (ℕ × ℕ)
read_cells cells reg_bytes reg_cursor =
    if cells == 2
    then (do
      v ← or_fault (read_be64_from_address (drop reg_cursor reg_bytes))
      pure (v, reg_cursor + 8))
    else (do
      v ← or_fault (read_be32_from_address (drop reg_cursor reg_bytes))
      pure (v, reg_cursor + 4))

-- The checks on one region.
check_region : ℕ → ℕ → Kernel (Unit {0})
check_region base size =
    if size == 0
    then panic "Physical memory region reported with zero size"
    else if ltb (uint64_max - size) base
    then panic "Physical memory region reported with addresses that overflow 64-bit address space"
    else if ltb uint64_max base
    then panic "Memory region base address cannot be cast to uintptr_t"
    else if ltb uint64_max size
    then panic "Memory region size cannot be cast to size_t"
    else pure tt

-- `out_memory_regions[i] = ...`.
store_region : List MemoryRegion → ℕ → MemoryRegion → Kernel (List MemoryRegion)
store_region regions i r = if ltb i (length regions) then pure (set regions i r) else stop overrun

-- `for (size_t i = 0; i < number_of_regions_specified; ++i)`, with `left` rounds to go.
read_regions : ℕ → ℕ → ℕ → ℕ → Bytes → ℕ → List MemoryRegion → Kernel (List MemoryRegion)
read_regions zero i address_cells size_cells reg_bytes reg_cursor regions = pure regions
read_regions (suc left) i address_cells size_cells reg_bytes reg_cursor regions = do
  (base, after_base) ← read_cells address_cells reg_bytes reg_cursor
  (size, after_size) ← read_cells size_cells reg_bytes after_base
  check_region base size
  regions' ← store_region regions i (record { base_address = base; size = size })
  read_regions left (i + 1) address_cells size_cells reg_bytes after_size regions'

abbrev size_of_one_region_spec : ℕ → ℕ → ℕ
size_of_one_region_spec address_cells size_cells = 4 * (address_cells + size_cells)

report_reg_size : ℕ → ℕ → Kernel (Unit {0})
report_reg_size reg_size one = do
  console_print (literal "reg_size: 0x")
  print_value 8 reg_size
  console_print (literal "\nsize_of_one_region_spec: 0x")
  print_value 8 one
  console_print (literal "\n")

-- From the check of the remainder on.
decode_regions : ℕ → List MemoryRegion → ℕ → ℕ → Bytes → ℕ → Kernel (List MemoryRegion × ℕ)
unfolding report_reg_size
decode_regions one regions address_cells size_cells reg_bytes reg_size =
    if not (reg_size % one == 0)
    then (do
      report_reg_size reg_size one
      panic
          "Unable to determine physical memory: reg size is not an integer multiple of region sizes")
    else if ltb 16 (reg_size / one)
    then panic "Only up to 16 regions of physical memory supported"
    else (do
      regions' ← read_regions (reg_size / one) 0 address_cells size_cells reg_bytes 0 regions
      pure (regions', reg_size / one))

pub physical_memory_regions : List MemoryRegion → ℕ → ℕ → Bytes → ℕ → Kernel (List MemoryRegion × ℕ)
unfolding decode_regions
physical_memory_regions regions address_cells size_cells reg_bytes reg_size =
    if ltb reg_size address_cells || ltb reg_size size_cells
    then panic
        "Unable to determine physical memory regions: address_cells or size_cells are larger than reg size"
    else if ltb address_cells 1 || ltb size_cells 1 || ltb reg_size 1
    then panic
        "Unable to determin physical memory regions: address_cells, size_cells, and reg_size must be greater than 0."
    else if ltb 2 address_cells || ltb 2 size_cells
    then panic
        "Unable to determin physical memory regions: address_cells and size_cells must be less than 3."
    else decode_regions (size_of_one_region_spec address_cells size_cells) regions address_cells
        size_cells reg_bytes reg_size
