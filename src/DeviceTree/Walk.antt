-- ===== src/DeviceTree/Walk.antt =====
-- kernel/Hardware/DeviceTree.c, lines 151 to 373: the tokens of the structure block.
pub mod Bounds
pub mod Tokens
pub mod Passes
pub mod Properties
pub mod Whole
pub mod Plain
pub mod Memory
pub mod Root
pub mod RoundTrip
use charcoalos.DeviceTree.Types.{plus, HardwareInfo, read32, Blob, pointed}
use charcoalos.DeviceTree.Property.{align, read_property, Walk}
use charcoalos.Panic.{panic}
use charcoalos.Prelude.{
  ℕ, zero, suc, ◌+◌, ◌-◌, false, Option, none, some, [], ◌∷◌, ltb, ◌==◌, if◌then◌else◌, u64, Bytes,
}
use charcoalos.Machine.{◌>>=◌, fault, stop, unfinished, Kernel, pure}

abbrev pub fdt_begin_node : ℕ
fdt_begin_node = 0x1

abbrev pub fdt_end_node : ℕ
fdt_end_node = 0x2

abbrev pub fdt_prop : ℕ
fdt_prop = 0x3

abbrev pub fdt_nop : ℕ
fdt_nop = 0x4

abbrev pub fdt_end : ℕ
fdt_end = 0x9

-- `while (*(char *)(dtb_cursor) != '\0')`, over the bytes from the cursor on: the cursor comes back
-- at the terminator.
scan_name : Bytes → ℕ → ℕ → Kernel ℕ
scan_name [] struct_end cursor = stop fault
scan_name (c ∷ rest) struct_end cursor =
    if c == 0
    then pure cursor
    else if ltb struct_end (plus cursor 1)
    then panic "Malformed DTB: immediate node name overflow"
    else if plus cursor 1 == struct_end
    then panic "Malformed DTB: node name overflow"
    else scan_name rest struct_end (plus cursor 1)

begin_node : Blob → ℕ → Walk → Kernel Walk
begin_node b struct_end w =
    if w.dtb_cursor == struct_end then panic "Malformed DTB: cannot parse node name" else (do
      terminator ← scan_name (pointed b w.dtb_cursor) struct_end w.dtb_cursor
      let after = align (plus terminator 1)
      if ltb struct_end after
          then panic "Malformed DTB: token overflow after align"
          else pure (record w {
            dtb_cursor = after;
            node_name = pointed b w.dtb_cursor;
            node_depth = u64 (w.node_depth + 1);
            current_node_device_type = none;
            current_node_reg = none;
          }))

end_node : Walk → Kernel Walk
end_node w =
    if w.node_depth == 0
    then panic "Malformed DTB: end node token without matching begin node token"
    else pure (record w { node_depth = w.node_depth - 1 })

-- `switch (token)`, with the cursor behind the token.
handle_token : Blob → ℕ → ℕ → Walk → Kernel Walk
handle_token b struct_end token w =
    if token == fdt_begin_node
    then begin_node b struct_end w
    else if token == fdt_end_node
    then end_node w
    else if token == fdt_prop
    then read_property b struct_end w
    else if token == fdt_nop
    then pure w
    else if token == fdt_end
    then pure (record w {
      end_tokens_encountered = u64 (w.end_tokens_encountered + 1);
      dtb_cursor = struct_end;
    })
    else panic "Malformed DTB: Unrecognized DTB token"

-- One round of `while (true)`: `none` at the `break`.
walk_step : Blob → ℕ → Walk → Kernel (Option Walk)
walk_step b struct_end w =
    if ltb struct_end w.dtb_cursor
    then panic "Malformed DTB: cursor out of bounds"
    else if ltb (struct_end - w.dtb_cursor) 4
    then pure none
    else (do
      token ← read32 b w.dtb_cursor
      if ltb struct_end (plus w.dtb_cursor 4) then panic "Malformed DTB: token overflow" else (do
        w' ← handle_token b struct_end token (record w { dtb_cursor = plus w.dtb_cursor 4 })
        pure (some w')))

pub walk_loop : ℕ → Blob → ℕ → Walk → Kernel Walk
walk_loop zero b struct_end w = stop unfinished
walk_loop (suc fuel) b struct_end w = do
  next ← walk_step b struct_end w
  elim next [ none ↦ pure w | some w' ↦ walk_loop fuel b struct_end w' ]

-- The variables as they are declared.
abbrev pub first_walk : ℕ → HardwareInfo → Walk
first_walk cursor info = record {
  dtb_cursor = cursor;
  address_cells_initialized = false;
  size_cells_initialized = false;
  current_node_reg = none;
  current_node_reg_size = 0;
  current_node_device_type = none;
  node_name = 0 ∷ [];
  node_depth = 0;
  end_tokens_encountered = 0;
  info = info;
}

-- Each round takes at least the four bytes of its token, so the size of the block bounds them.
pub walk_structure : Blob → HardwareInfo → Kernel Walk
walk_structure b info =
    let h = info.header in
    let start = plus b.dtb h.off_dt_struct in
    walk_loop (suc h.size_dt_struct) b (plus start h.size_dt_struct) (first_walk start info)
