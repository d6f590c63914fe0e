-- ===== src/DeviceTree/Property/Regions.antt =====
-- kernel/Hardware/DeviceTree.c, lines 340 to 358, in a node that describes memory as the
-- specification says.
use charcoalos.DeviceTree.Property.Names.{is_string-inside}
use charcoalos.DeviceTree.Types.{Blob, HardwareInfo}
use charcoalos.DeviceTree.Property.{Walk, decode_memory, check_memory}
use charcoalos.Memory.Regions.{Encodable, OneOrTwo, encode_regions, physical_memory_regions-encode}
use charcoalos.Memory.{MemoryRegion}
use charcoalos.Machine.{Machine, returned}
use charcoalos.Console.{literal}
use charcoalos.Prelude.{
  ℕ, ◌≤◌, ◌<◌, ◌≡◌, refl, ap, true, none, some, List, ◌++◌, arith, length, drop, All, length-append,
  length-drop, Bytes, codes, drop-append,
}

-- What is kept of the regions.
abbrev pub found : List MemoryRegion → HardwareInfo → HardwareInfo
found regions info = record info {
  physical_memory_regions = regions ++ drop (length regions) info.physical_memory_regions;
  physical_memory_region_count = length regions;
}

-- The cells and the regions that a tree gives.
pub record AreWritten (a n : ℕ) (regions : List MemoryRegion) : Type 0 where
  pub address_cells_fit : OneOrTwo a
  pub size_cells_fit : OneOrTwo n
  pub regions_fit : All (Encodable a n) regions
  pub some_region : 0 < length regions
  pub at_most : length regions ≤ 16

-- The cells are in place, and the array of regions.
pub record IsReady (a n : ℕ) (info : HardwareInfo) : Type 0 where
  pub address_cells_are : info.address_cells ≡ a
  pub size_cells_are : info.size_cells ≡ n
  pub sixteen : length info.physical_memory_regions ≡ 16

pub check_memory-none :
    (b : Blob) (w : Walk) (m : Machine) → check_memory b none w m ≡ (returned w, m)
unfolding check_memory
check_memory-none b w m = refl

module _ (a n : ℕ) (regions : List MemoryRegion) (usable : AreWritten a n regions) where
  pub found-found : (info : HardwareInfo) → found regions (found regions info) ≡ found regions info
  found-found info =
      ap
        (λ (x : List MemoryRegion). record (found regions info) {
          physical_memory_regions = regions ++ x;
        })
        (drop-append regions (drop (length regions) info.physical_memory_regions))

  pub found-IsReady : (info : HardwareInfo) → IsReady a n info → IsReady a n (found regions info)
  found-IsReady info ready = record {
    address_cells_are = ready.address_cells_are;
    size_cells_are = ready.size_cells_are;
    sixteen = omega (
      arith,
      ready.sixteen,
      usable.at_most,
      length-append {0} regions (drop (length regions) info.physical_memory_regions),
      length-drop (length regions) info.physical_memory_regions,
    );
  }

  pub check_memory-encode :
      (b : Blob) (tail : Bytes) (w : Walk) (m : Machine)
      → IsReady a n w.info
      → w.address_cells_initialized ≡ true
      → w.size_cells_initialized ≡ true
      → w.current_node_device_type ≡ some (literal "memory")
      → w.current_node_reg_size ≡ length (encode_regions a n regions)
      → check_memory b (some (encode_regions a n regions ++ tail)) w m
        ≡ (returned (record w { info = found regions w.info }), m)
  unfolding check_memory decode_memory literal
  check_memory-encode b tail w m ready address size typed size_is =
      let decoded =
        physical_memory_regions-encode a n usable.address_cells_fit usable.size_cells_fit regions
          w.info.physical_memory_regions tail m usable.regions_fit usable.some_region usable.at_most
          ready.sixteen in
      let compared =
        is_string-inside (literal "memory") "memory" (codes "memory") m refl (omega arith) in
      rw typed (
        rw compared (
          rw (address, size)
            (rw (ready.address_cells_are, ready.size_cells_are, size_is) (rw decoded refl))))
