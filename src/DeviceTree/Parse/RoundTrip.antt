-- ===== src/DeviceTree/Parse/RoundTrip.antt =====
-- kernel/Hardware/DeviceTree.c, `parse_device_tree_blob` on the blob of a device tree: what it finds.
use charcoalos.DeviceTree.Property.Roles.{IsHarmless}
use charcoalos.Console.Print.{shown, print_literal}
use charcoalos.Console.Hex.{hex_digits, print_value_lem}
use charcoalos.Endian.Decode.{be32_bytes}
use charcoalos.DeviceTree.Property.Regions.{AreWritten}
use charcoalos.DeviceTree.Walk.Root.{IsMachine}
use charcoalos.DeviceTree.Walk.RoundTrip.{described, walk_structure-encode_node}
use charcoalos.DeviceTree.Walk.Tokens.{ended}
use charcoalos.DeviceTree.Header.Encode.{
  header_fields, IsAccepted, encode_words, check_header-IsAccepted, read_header-encode_words,
  print_header-Prints,
}
use charcoalos.DeviceTree.Reserved.Entry.{IsEntry}
use charcoalos.DeviceTree.Reserved.Encode.{encode_table}
use charcoalos.DeviceTree.Reserved.RoundTrip.{reserving, read_reserved-encode_table}
use charcoalos.DeviceTree.Header.{check_header, read_header, print_header}
use charcoalos.DeviceTree.Reserved.{read_reserved}
use charcoalos.DeviceTree.Walk.{walk_structure}
use charcoalos.DeviceTree.Types.{HardwareInfo, Blob, DtbHeader, pointed}
use charcoalos.DeviceTree.Parse.{parse_blob, finish, parse_device_tree_blob}
use charcoalos.DeviceTree.Encode.{encode_node, Node}
use charcoalos.DeviceTree.Property.{Walk}
use charcoalos.Memory.{MemoryRegion}
use charcoalos.Prelude.{
  ℕ, ◌+◌, ◌*◌, ◌%◌, ◌^◌, ◌≤◌, ◌<◌, ◌≡◌, refl, ap, ◌∙◌, false, some, List, ◌++◌, arith, ◌==◌, length,
  All, u32, Bytes,
}
use charcoalos.Machine.{returned, emit, Machine, emit-emit}

-- What the hardware information holds of a tree, its header and its table of reserved regions.
abbrev pub parsed :
    DtbHeader → ℕ → ℕ → List MemoryRegion → List MemoryRegion → HardwareInfo → HardwareInfo
parsed h a n regions rs info = described a n regions (reserving rs (record info { header = h }))

-- A blob as the Devicetree Specification says, in 64-bit address space: the header in front, and where
-- it says the table of reserved regions, the structure block of the tree, and the strings block.
pub record IsBlobOf (b : Blob) (h : DtbHeader) (rs : List MemoryRegion) (offset_of : Bytes → ℕ)
    (a n : ℕ) (regions : List MemoryRegion) (tree : Node) : Type 0 where
  pub somewhere : 0 < b.dtb
  pub top : b.dtb + h.total_size + 16 ≤ 2 ^ 64
  pub accepted : IsAccepted h
  pub behind_header : Bytes
  pub header_is : pointed b b.dtb ≡ encode_words (header_fields h) ++ behind_header
  pub entries : All IsEntry rs
  pub entries_fit : length rs < 255
  pub table_inside : h.off_mem_rsvmap + 16 * (length rs + 1) ≤ h.total_size
  pub behind_table : Bytes
  pub table_is : pointed b (b.dtb + h.off_mem_rsvmap) ≡ encode_table rs ++ behind_table
  pub aligned : (b.dtb + h.off_dt_struct) % 4 ≡ 0
  pub tree_inside : length (encode_node offset_of tree) + 4 ≤ h.size_dt_struct
  pub behind_tree : Bytes
  pub tree_is :
      pointed b (b.dtb + h.off_dt_struct)
      ≡ encode_node offset_of tree ++ (be32_bytes 9 ++ behind_tree)
  pub machine : IsMachine b h offset_of a n regions tree
  pub written : AreWritten a n regions

finish_lem :
    (w : Walk) (m : Machine)
    → w.node_depth ≡ 0
    → w.end_tokens_encountered ≡ 1
    → (text : Bytes) × (finish w m ≡ (returned w.info, emit m text))
unfolding finish
finish_lem w m closed ended =
    let bits = hex_digits 4 (u32 (32 * w.info.address_cells)) in
    let bits' = hex_digits 4 (u32 (32 * w.info.size_cells)) in
    (
      (((shown "Memory addresses are 0x" ++ bits) ++ shown " bits\nMemory region sizes are 0x")
            ++ bits')
          ++ shown " bits \n",
      rw (closed, ended) (simp (print_literal, print_value_lem, emit-emit) refl),
    )

-- Behind the null checks.
parse_blob_lem :
    (b : Blob) (h : DtbHeader) (out info : HardwareInfo) (w : Walk) (a c d : Bytes) (m : Machine)
    → read_header b m ≡ (returned h, m)
    → print_header h m ≡ (returned tt, emit m a)
    → check_header h (emit m a) ≡ (returned tt, emit m a)
    → read_reserved b (record out { header = h }) (emit m a) ≡ (returned info, emit (emit m a) c)
    → walk_structure b info (emit (emit m a) c) ≡ (returned w, emit (emit m a) c)
    → finish w (emit (emit m a) c) ≡ (returned w.info, emit (emit (emit m a) c) d)
    → parse_blob out b m ≡ (returned w.info, emit m ((a ++ c) ++ d))
unfolding parse_blob
parse_blob_lem b h out info w a c d m header printed checked reserved walked finished = rw header (
    rw printed (
      rw checked (
        rw reserved (
          rw walked (
            finished
            ∙ ap (λ (n : Machine). (returned w.info, n))
                (ap (λ (n : Machine). emit n d) (emit-emit m a c) ∙ emit-emit m (a ++ c) d))))))

-- The parser finds what a device tree says: on a blob that is laid out as the Devicetree
-- Specification says, in any order of nodes and properties, with one to sixteen usable memory
-- regions, one or two cells for an address and for a size, fewer than 255 reserved regions, its
-- structure block on a multiple of four, at least fourteen bytes behind each property's name in the
-- strings block, and one node that describes memory, a child of the root, it returns, whatever
-- numbers the arrays of the output held. What comes back holds the header's fields, the reserved
-- regions' addresses and sizes in order with their number, the root's address and size cells, and the
-- memory regions in order with their number. The parser only prints to the console. What stands at
-- the address 0 is not the string "memory".
pub parse_device_tree_blob-IsBlobOf :
    (b : Blob) (h : DtbHeader) (rs : List MemoryRegion) (offset_of : Bytes → ℕ) (a n : ℕ)
    (regions : List MemoryRegion) (tree : Node) (out : HardwareInfo) (m : Machine)
    → IsBlobOf b h rs offset_of a n regions tree
    → IsHarmless b.null_page
    → length out.physical_memory_regions ≡ 16
    → length out.reserved_region_base_addresses ≡ 255
    → length out.reserved_region_sizes ≡ 255
    → (text : Bytes) × (parse_device_tree_blob (some out) b m
        ≡ (returned (parsed h a n regions rs out), emit m text))
unfolding parse_device_tree_blob
parse_device_tree_blob-IsBlobOf b h rs offset_of a n regions tree out m blob harmless sixteen bases
      sizes =
    let not_null : b.dtb == 0 ≡ false = ground (arith, blob.somewhere) in
    let accepted = blob.accepted in
    let (first, printed) = print_header-Prints h m in
    let m1 = emit m first in
    let (second, reserved) =
      read_reserved-encode_table b (record out { header = h }) blob.top rs blob.behind_table m1
        bases sizes blob.entries_fit blob.table_inside blob.entries blob.table_is in
    let m2 = emit m1 second in
    let info = reserving rs (record out { header = h }) in
    let (w, walked, found_is, closed, ended) =
      walk_structure-encode_node b offset_of a n regions tree blob.behind_tree info m2 blob.machine
        blob.written harmless sixteen blob.aligned (omega (arith, blob.top, accepted.struct_inside))
        blob.tree_is blob.tree_inside in
    let (third, finished) = finish_lem w m2 closed ended in
    let parsing =
      parse_blob_lem b h out info w first second third m
        (read_header-encode_words b m h blob.behind_header accepted
          (omega (arith, blob.top, accepted.header_inside)) blob.header_is)
        printed (check_header-IsAccepted h m1 accepted) reserved walked finished in
    (
      (first ++ second) ++ third,
      rw not_null refl
          ∙ parsing
          ∙ ap (λ (x : HardwareInfo). (returned x, emit m ((first ++ second) ++ third))) found_is,
    )
