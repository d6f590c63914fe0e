-- ===== src/DeviceTree/Walk/RoundTrip.antt =====
-- kernel/Hardware/DeviceTree.c, lines 151 to 373, on the structure block of a tree: what the walk finds.
use charcoalos.Endian.Decode.{be32_bytes}
use charcoalos.DeviceTree.Encode.Cursor.{pointed-next}
use charcoalos.DeviceTree.Property.Roles.{IsHarmless}
use charcoalos.DeviceTree.Property.Regions.{AreWritten}
use charcoalos.DeviceTree.Walk.Root.{IsMachine, Passes-machine}
use charcoalos.DeviceTree.Walk.Whole.{tokens, tokens-length}
use charcoalos.DeviceTree.Walk.Tokens.{ended, walk_loop-finish}
use charcoalos.DeviceTree.Walk.{walk_structure, first_walk, walk_loop}
use charcoalos.DeviceTree.Types.{Blob, plus, pointed, HardwareInfo}
use charcoalos.DeviceTree.Encode.{encode_node, Node}
use charcoalos.DeviceTree.Property.{Walk}
use charcoalos.Memory.{MemoryRegion}
use charcoalos.Machine.{returned, Machine}
use charcoalos.Prelude.{
  ℕ, suc, ◌+◌, ◌-◌, ◌%◌, ◌^◌, ◌≤◌, ◌≡◌, refl, ap, ◌∙◌, List, ◌++◌, arith, length, drop, Bytes,
}

-- The hardware information with the cells and the regions that a tree gives.
abbrev pub described : ℕ → ℕ → List MemoryRegion → HardwareInfo → HardwareInfo
described a n regions info = record info {
  address_cells = a;
  size_cells = n;
  physical_memory_regions = regions ++ drop (length regions) info.physical_memory_regions;
  physical_memory_region_count = length regions;
}

-- The structure block of a device tree, written as the Devicetree Specification says: the root gives the
-- cells for addresses and for sizes, one of its children has `device_type` `memory` and gives the
-- regions in its `reg`, in any order of nodes and of properties, and every other node, at any depth, is
-- one that does not. The block starts on a multiple of four and does not reach the last bytes of the
-- address space, each property's name stands in the strings block with at least fourteen bytes behind
-- its terminator, and what stands at address 0 is not the string "memory". Then the walk returns, prints
-- nothing, and leaves the cells, the regions in the tree's order and their number in the hardware
-- information, and nothing else changed; every node is closed, and the end token is met once.
pub walk_structure-encode_node :
    (b : Blob) (offset_of : Bytes → ℕ) (a n : ℕ) (regions : List MemoryRegion) (tree : Node)
    (rest : Bytes) (info : HardwareInfo) (m : Machine)
    → IsMachine b info.header offset_of a n regions tree
    → AreWritten a n regions
    → IsHarmless b.null_page
    → length info.physical_memory_regions ≡ 16
    → (b.dtb + info.header.off_dt_struct) % 4 ≡ 0
    → b.dtb + info.header.off_dt_struct + info.header.size_dt_struct + 4 ≤ 2 ^ 64
    → pointed b (b.dtb + info.header.off_dt_struct)
      ≡ encode_node offset_of tree ++ (be32_bytes 9 ++ rest)
    → length (encode_node offset_of tree) + 4 ≤ info.header.size_dt_struct
    → (w : Walk) × (walk_structure b info m ≡ (returned w, m))
      × (w.info ≡ described a n regions info)
      × (w.node_depth ≡ 0)
      × (w.end_tokens_encountered ≡ 1)
unfolding walk_structure
walk_structure-encode_node b offset_of a n regions tree rest info m machine written harmless sixteen
      aligned top at inside =
    let h = info.header in
    let start = b.dtb + h.off_dt_struct in
    let struct_end = start + h.size_dt_struct in
    let begin_is : plus b.dtb h.off_dt_struct ≡ start = omega arith in
    let end_is : plus start h.size_dt_struct ≡ struct_end = omega arith in
    let text = encode_node offset_of tree in
    let left = suc h.size_dt_struct - (tokens tree + 2) in
    let fuel : suc h.size_dt_struct ≡ tokens tree + suc (suc left) =
      omega (arith, tokens-length offset_of tree) in
    let started : walk_structure b info m
        ≡ walk_loop (tokens tree + suc (suc left)) b struct_end (first_walk start info) m =
      ap
        (λ (x : ℕ).
          walk_loop (suc h.size_dt_struct) b (plus x h.size_dt_struct) (first_walk x info) m)
        begin_is
      ∙ ap (λ (x : ℕ). walk_loop (suc h.size_dt_struct) b x (first_walk start info) m) end_is
      ∙ ap (λ (x : ℕ). walk_loop x b struct_end (first_walk start info) m) fuel in
    let (w, ran, settled, stage) =
      Passes-machine b struct_end m top h 0 offset_of harmless a n regions written info tree 0
        sixteen machine (suc (suc left)) start (be32_bytes 9 ++ rest) (first_walk start info)
        (omega arith) aligned at (omega arith) (omega arith) (refl, refl, refl)
        (refl, refl, refl, refl) in
    let behind : pointed b w.dtb_cursor ≡ be32_bytes 9 ++ rest =
      ap (pointed b) stage.0 ∙ pointed-next b start text (be32_bytes 9 ++ rest) (omega arith) at in
    let over = walk_loop-finish b struct_end m top left rest w behind (omega (arith, stage.0)) in
    (ended b struct_end m top w, started ∙ ran ∙ over, settled.0, stage.1, omega (arith, stage.2))
