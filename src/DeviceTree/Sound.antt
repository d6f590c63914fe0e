-- ===== src/DeviceTree/Sound.antt =====
-- What holds of the hardware information that a parse may return, and how a parse may stop.
use charcoalos.DeviceTree.Types.{Blob, HardwareInfo, DtbHeader}
use charcoalos.Memory.Regions.{IsUsable}
use charcoalos.Machine.{Stop, halted, fault}
use charcoalos.Prelude.{◌+◌, ◌^◌, ◌≤◌, ◌<◌, ◌≡◌, ◌⊎◌, length, take, All, IsByte}

-- The device tree is refused by a panic, or a read falls outside of the blob.
abbrev pub Refused : Stop → Type 0
Refused s = (s ≡ halted) ⊎ (s ≡ fault)

pub record IsHeader (h : DtbHeader) : Type 0 where
  pub magic_is : h.magic ≡ 0xd00dfeed
  pub total_size_is : 40 ≤ h.total_size
  pub total_size_lt : h.total_size < 2 ^ 32
  pub rsvmap_inside : h.off_mem_rsvmap < h.total_size
  pub struct_inside : h.off_dt_struct + h.size_dt_struct ≤ h.total_size
  pub strings_inside : h.off_dt_strings + h.size_dt_strings ≤ h.total_size

-- The arrays have their lengths, and the regions counted are there and usable.
pub record IsFilled (info : HardwareInfo) : Type 0 where
  pub regions_length : length info.physical_memory_regions ≡ 16
  pub regions_count : info.physical_memory_region_count ≤ 16
  pub regions_usable :
      All IsUsable (take info.physical_memory_region_count info.physical_memory_regions)
  pub bases_length : length info.reserved_region_base_addresses ≡ 255
  pub sizes_length : length info.reserved_region_sizes ≡ 255

abbrev pub IsSound : HardwareInfo → Type 0
IsSound info = IsHeader info.header × IsFilled info × (info.reserved_regions_count ≤ 255)

-- The blob lies below the last 16 gigabytes of the address space, and its bytes are bytes.
pub record IsPlaced (b : Blob) : Type 0 where
  pub below : b.dtb + 2 ^ 34 ≤ 2 ^ 64
  pub bytes : All IsByte b.contents
