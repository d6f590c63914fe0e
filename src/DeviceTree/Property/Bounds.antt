-- ===== src/DeviceTree/Property/Bounds.antt =====
-- One property of a node: where the cursor goes, and what the arrays keep.
use charcoalos.DeviceTree.Header.Bounds.{panic-Refused}
use charcoalos.DeviceTree.Reserved.Bounds.{or_fault-Ends, IsReserving}
use charcoalos.DeviceTree.Types.{Blob, read32, pointed, DtbHeader, plus}
use charcoalos.DeviceTree.Sound.{Refused}
use charcoalos.DeviceTree.Property.{
  check_memory, use_property, align, save_node, save_size_cells, decode_memory, save_device_type,
  object, save_address_cells, is_string, align_loop, Walk, save_cells, read_property,
}
use charcoalos.Memory.Safety.{physical_memory_regions-Readable}
use charcoalos.Machine.Ends.{Anything, Ends-if, Ends, Ends-bind, Ends-weaken}
use charcoalos.Memory.{physical_memory_regions}
use charcoalos.Machine.{Machine}
use charcoalos.Prelude.{
  ℕ, ◌+◌, ◌-◌, ◌%◌, ◌^◌, ◌≤◌, ◌<◌, ◌≡◌, refl, inl, inr, not, ◌&&◌, Option, none, some, arith, ltb,
  leb, ◌==◌, Bytes, String,
}

is_string-Ends :
    (text : Bytes) (constant : String) (n : ℕ) (m : Machine)
    → Ends Refused Anything (is_string text constant n m).0
unfolding is_string
is_string-Ends text constant n m = or_fault-Ends _ m

pub read32-Refused :
    (b : Blob) (address : ℕ) (m : Machine) → Ends Refused Anything (read32 b address m).0
unfolding read32
read32-Refused b address m = or_fault-Ends _ m

-- The loop's cursor, where three more bytes do not leave the address space.
pub align_lem :
    (cursor : ℕ)
    → cursor + 3 < 2 ^ 64
    → (cursor ≤ align cursor) × (align cursor ≤ cursor + 3) × (align cursor % 4 ≡ 0)
unfolding align align_loop
align_lem cursor h = ground arith

-- The cursor is there, and the information keeps its shape.
pub record IsAt (h : DtbHeader) (cursor : ℕ) (w : Walk) : Type 0 where
  pub cursor_is : w.dtb_cursor ≡ cursor
  pub reserving : IsReserving h 255 w.info

module _ (b : Blob) (h : DtbHeader) (cursor : ℕ) where
  save_address_cells-Ends :
      (data_bytes prop_length : ℕ) (w : Walk) (m : Machine)
      → IsAt h cursor w
      → Ends Refused (IsAt h cursor) (save_address_cells b data_bytes prop_length w m).0
  unfolding save_address_cells
  save_address_cells-Ends data_bytes prop_length w m r =
      Ends-if _ _ (not (prop_length == 4)) _ _ m (λ _. panic-Refused _ _ m)
        λ _.
          Ends-bind _ _ _ (read32 b data_bytes) _ m (read32-Refused b data_bytes m)
            λ v n _. ground arith

  save_size_cells-Ends :
      (data_bytes prop_length : ℕ) (w : Walk) (m : Machine)
      → IsAt h cursor w
      → Ends Refused (IsAt h cursor) (save_size_cells b data_bytes prop_length w m).0
  unfolding save_size_cells
  save_size_cells-Ends data_bytes prop_length w m r =
      Ends-if _ _ (not (prop_length == 4)) _ _ m (λ _. panic-Refused _ _ m)
        λ _.
          Ends-bind _ _ _ (read32 b data_bytes) _ m (read32-Refused b data_bytes m)
            λ v n _. ground arith

  save_cells-Ends :
      (name : Bytes) (data_bytes prop_length : ℕ) (w : Walk) (m : Machine)
      → IsAt h cursor w
      → Ends Refused (IsAt h cursor) (save_cells b name data_bytes prop_length w m).0
  unfolding save_cells
  save_cells-Ends name data_bytes prop_length w m r =
      Ends-bind _ _ _ (is_string w.node_name "" 0) _ m (is_string-Ends _ _ _ m) λ is_root n _.
        Ends-if _ _ is_root _ _ n
          (λ _.
            Ends-bind _ _ _ (is_string name "#address-cells" 14) _ n (is_string-Ends _ _ _ n)
              λ is_address n' _.
                Ends-if _ _ is_address _ _ n'
                  (λ _. save_address_cells-Ends data_bytes prop_length w n' r)
                  λ _.
                    Ends-bind _ _ _ (is_string name "#size-cells" 11) _ n' (is_string-Ends _ _ _ n')
                      λ is_size n'' _.
                        Ends-if _ _ is_size _ _ n''
                          (λ _. save_size_cells-Ends data_bytes prop_length w n'' r) λ _. r)
          λ _. r

  save_device_type-Ends :
      (data_bytes prop_length : ℕ) (w : Walk) (m : Machine)
      → IsAt h cursor w
      → Ends Refused (IsAt h cursor) (save_device_type b data_bytes prop_length w m).0
  unfolding save_device_type
  save_device_type-Ends data_bytes prop_length w m r =
      Ends-if _ _ (prop_length == 7) _ _ m
        (λ _.
          Ends-bind _ _ _ (is_string (pointed b data_bytes) "memory" 6) _ m (is_string-Ends _ _ _ m)
            λ is_memory n _. ground arith)
        λ _. r

  save_node-Ends :
      (name : Bytes) (data_bytes prop_length : ℕ) (w : Walk) (m : Machine)
      → IsAt h cursor w
      → Ends Refused (IsAt h cursor) (save_node b name data_bytes prop_length w m).0
  unfolding save_node
  save_node-Ends name data_bytes prop_length w m r =
      Ends-bind _ _ _ (is_string name "device_type" 11) _ m (is_string-Ends _ _ _ m)
        λ is_device_type n _.
          Ends-if _ _ is_device_type _ _ n (λ _. save_device_type-Ends data_bytes prop_length w n r)
            λ _.
              Ends-bind _ _ _ (is_string name "reg" 3) _ n (is_string-Ends _ _ _ n)
                λ is_reg n' any. ground arith

  decode_memory-Ends :
      (reg : Bytes) (w : Walk) (m : Machine)
      → IsAt h cursor w
      → Ends Refused (IsAt h cursor) (decode_memory reg w m).0
  unfolding decode_memory
  decode_memory-Ends reg w m r =
      Ends-if _ _ (w.address_cells_initialized && w.size_cells_initialized) _ _ m
        (λ _.
          Ends-bind _ _ _
            (physical_memory_regions w.info.physical_memory_regions w.info.address_cells
              w.info.size_cells reg w.current_node_reg_size)
            _ m
            (physical_memory_regions-Readable Refused (inl refl) reg _ _ _ _ m (inr (inr refl))
              (ground arith))
            λ found n safe. ground arith)
        λ _. panic-Refused _ _ m

  check_memory-Ends :
      (reg : Option Bytes) (w : Walk) (m : Machine)
      → IsAt h cursor w
      → Ends Refused (IsAt h cursor) (check_memory b reg w m).0
  unfolding check_memory
  check_memory-Ends none w m r = r
  check_memory-Ends (some reg) w m r =
      Ends-bind _ _ _ (is_string (object b w.current_node_device_type) "memory" 6) _ m
        (is_string-Ends _ _ _ m)
        λ is_memory n _. Ends-if _ _ is_memory _ _ n (λ _. decode_memory-Ends reg w n r) λ _. r

  use_property-Ends :
      (name : Bytes) (data_bytes prop_length : ℕ) (w : Walk) (m : Machine)
      → IsAt h cursor w
      → Ends Refused (IsAt h cursor) (use_property b name data_bytes prop_length w m).0
  unfolding use_property
  use_property-Ends name data_bytes prop_length w m r =
      Ends-bind _ _ _ (save_cells b name data_bytes prop_length w) _ m
        (save_cells-Ends name data_bytes prop_length w m r)
        λ w1 n r1.
          Ends-bind _ _ _ (save_node b name data_bytes prop_length w1) _ n
            (save_node-Ends name data_bytes prop_length w1 n r1)
            λ w2 n' r2. check_memory-Ends w2.current_node_reg w2 n' r2

-- The cursor is in the block, not before `low`.
pub record IsBetween (h : DtbHeader) (low high : ℕ) (w : Walk) : Type 0 where
  pub cursor_ge : low ≤ w.dtb_cursor
  pub cursor_le : w.dtb_cursor ≤ high
  pub reserving : IsReserving h 255 w.info

-- With the cursor in the structure block, which ends at least four bytes below the end of the address
-- space, and information whose header is `h`, whose arrays have their lengths and which counts at
-- most sixteen memory regions, all usable, and at most 255 reserved ones, reading a property ends,
-- whatever the bytes are: by a panic, by a read outside of the blob, or with the cursor in the block,
-- not before where it was, the header as it was, the arrays of their lengths and the same bounds on
-- the regions.
pub read_property-Ends :
    (b : Blob) (h : DtbHeader) (struct_end : ℕ) (w : Walk) (m : Machine)
    → struct_end + 4 ≤ 2 ^ 64
    → w.dtb_cursor ≤ struct_end
    → IsReserving h 255 w.info
    → Ends Refused (IsBetween h w.dtb_cursor struct_end) (read_property b struct_end w m).0
unfolding read_property
read_property-Ends b h struct_end w m top below r =
    let data_bytes = plus (plus w.dtb_cursor 4) 4 in
    Ends-if _ _ (ltb (struct_end - w.dtb_cursor) 8) _ _ m (λ _. panic-Refused _ _ m)
      λ metadata.
        Ends-bind _ _ _ (read32 b w.dtb_cursor) _ m (read32-Refused b _ m) λ prop_length n _.
          Ends-bind _ _ _ (read32 b (plus w.dtb_cursor 4)) _ n (read32-Refused b _ n)
            λ name_offset n' _.
              Ends-if _ _ (ltb (struct_end - data_bytes) prop_length) _ _ n'
                (λ _. panic-Refused _ _ n')
                λ value.
                  (let after = align (plus data_bytes prop_length) in
                    let data_is : data_bytes ≡ w.dtb_cursor + 8 = ground arith in
                    let sum_is : plus data_bytes prop_length ≡ w.dtb_cursor + 8 + prop_length =
                      ground arith in
                    let aligned = align_lem (plus data_bytes prop_length) (ground arith) in
                    Ends-if _ _ (ltb struct_end after) _ _ n' (λ _. panic-Refused _ _ n')
                      λ inside.
                        Ends-if _ _ (leb w.info.header.size_dt_strings name_offset) _ _ n'
                          (λ _. panic-Refused _ _ n')
                          λ _.
                            Ends-weaken Refused (IsAt h after) Refused
                              (IsBetween h w.dtb_cursor struct_end)
                              (use_property b
                                (pointed b
                                  (plus (plus b.dtb w.info.header.off_dt_strings) name_offset))
                                data_bytes prop_length (record w { dtb_cursor = after }) n').0
                              (λ _ t. t) (λ w' kept. ground arith)
                              (use_property-Ends b h after _ data_bytes prop_length _ n'
                                (ground arith)))
