-- ===== src/DeviceTree/Walk/Tokens.antt =====
-- The tokens of a structure block that is written as the specification says, one round of the walk each.
use charcoalos.Endian.Decode.{be32_bytes}
use charcoalos.Shell.Tokens.Words.{token}
use charcoalos.DeviceTree.Encode.Cursor.{read32-pointed, pointed-next, length-padded, align-padded}
use charcoalos.DeviceTree.Property.Align.{gap}
use charcoalos.DeviceTree.Walk.{walk_loop, handle_token, scan_name, walk_step, begin_node, end_node}
use charcoalos.DeviceTree.Types.{pointed, Blob, plus}
use charcoalos.DeviceTree.Encode.{padded, zeros}
use charcoalos.DeviceTree.Property.{Walk, align, use_property, read_property}
use charcoalos.Strings.Compare.{IsText}
use charcoalos.Machine.{Machine, returned}
use charcoalos.Prelude.{
  ℕ, suc, ◌+◌, ◌-◌, ◌%◌, ◌^◌, ◌≤◌, ◌<◌, ◌≡◌, refl, ap, ◌∙◌, true, false, none, [], ◌∷◌, ◌++◌,
  append_assoc, arith, ltb, leb, ◌==◌, length, length-append, u64, Bytes,
}

scan_name_lem :
    (name rest : Bytes) (struct_end cursor : ℕ) (m : Machine)
    → IsText name
    → cursor + length name < struct_end
    → struct_end < 2 ^ 64
    → scan_name (name ++ (0 ∷ rest)) struct_end cursor m ≡ (returned (cursor + length name), m)
unfolding scan_name
scan_name_lem [] rest struct_end cursor m t inside top =
    ap (λ (c : ℕ). (returned c, m)) (omega arith)
scan_name_lem (c ∷ name) rest struct_end cursor m t inside top =
    let more : c == 0 ≡ false = ground arith in
    let next : plus cursor 1 ≡ cursor + 1 = omega arith in
    let room : ltb struct_end (cursor + 1) ≡ false = ground arith in
    let last : cursor + 1 == struct_end ≡ false = ground arith in
    let total : cursor + 1 + length name ≡ cursor + suc (length name) = omega arith in
    rw more (
      rw next (
        rw (room, last)
          (scan_name_lem name rest struct_end (cursor + 1) m t.1 (omega arith) top
            ∙ ap (λ (c : ℕ). (returned c, m)) total)))

module _ (b : Blob) (struct_end : ℕ) (m : Machine) (top : struct_end + 4 ≤ 2 ^ 64) where
  -- A token is read and handled.
  walk_loop-token :
      (fuel token : ℕ) (rest : Bytes) (w w' : Walk)
      → pointed b w.dtb_cursor ≡ be32_bytes token ++ rest
      → token < 2 ^ 32
      → w.dtb_cursor + 4 ≤ struct_end
      → handle_token b struct_end token (record w { dtb_cursor = w.dtb_cursor + 4 }) m
        ≡ (returned w', m)
      → walk_loop (suc fuel) b struct_end w m ≡ walk_loop fuel b struct_end w' m
  unfolding walk_loop walk_step
  walk_loop-token fuel token rest w w' at small inside handled =
      let not_past : ltb struct_end w.dtb_cursor ≡ false = ground arith in
      let room : ltb (struct_end - w.dtb_cursor) 4 ≡ false = ground arith in
      let next : plus w.dtb_cursor 4 ≡ w.dtb_cursor + 4 = omega arith in
      let not_over : ltb struct_end (w.dtb_cursor + 4) ≡ false = ground arith in
      rw (not_past, room)
        (rw (read32-pointed b w.dtb_cursor token rest m at small)
          (rw next (rw not_over (rw handled refl))))

  -- The walk inside of a node that begins.
  abbrev pub entered : ℕ → Walk → Walk
  entered cursor w = record w {
    dtb_cursor = cursor;
    node_name = pointed b (w.dtb_cursor + 4);
    node_depth = w.node_depth + 1;
    current_node_device_type = none;
    current_node_reg = none;
  }

  pub walk_loop-begin :
      (fuel : ℕ) (name rest : Bytes) (w : Walk)
      → b.dtb ≤ w.dtb_cursor
      → w.dtb_cursor % 4 ≡ 0
      → IsText name
      → pointed b w.dtb_cursor ≡ be32_bytes 1 ++ (padded (name ++ (0 ∷ [])) ++ rest)
      → w.dtb_cursor + 4 + length (padded (name ++ (0 ∷ []))) ≤ struct_end
      → w.node_depth + 1 < 2 ^ 64
      → walk_loop (suc fuel) b struct_end w m
        ≡ walk_loop fuel b struct_end
            (entered (w.dtb_cursor + 4 + length (padded (name ++ (0 ∷ [])))) w)
            m
  unfolding handle_token begin_node
  walk_loop-begin fuel name rest w low aligned t at inside depth =
      let start = w.dtb_cursor + 4 in
      let text = name ++ (0 ∷ []) in
      let size = length-padded text in
      let length_is : length text ≡ length name + 1 = length-append {0} name (0 ∷ []) in
      let behind : pointed b start ≡ padded text ++ rest =
        pointed-next b w.dtb_cursor (be32_bytes 1) (padded text ++ rest) low at in
      let there : pointed b start ≡ name ++ (0 ∷ (zeros (gap (length text)) ++ rest)) =
        behind ∙ simp append_assoc in
      let not_end : start == struct_end ≡ false = ground arith in
      let scanned =
        scan_name_lem name (zeros (gap (length text)) ++ rest) struct_end start m t
          (omega (arith, size, length_is)) (omega arith) in
      let scanned' : scan_name (pointed b start) struct_end start m
          ≡ (returned (start + length name), m) =
        rw there scanned in
      let deeper : u64 (w.node_depth + 1) ≡ w.node_depth + 1 = omega arith in
      let after : align (plus (start + length name) 1) ≡ start + length (padded text) =
        ap align (omega (arith, length_is))
        ∙ (align-padded start text (omega arith) (omega (arith, size))).0 in
      let not_over : ltb struct_end (start + length (padded text)) ≡ false = ground arith in
      walk_loop-token fuel 1 (padded text ++ rest) w _ at (omega arith) (omega arith)
        (rw not_end (rw scanned' (rw after (rw (not_over, deeper) refl))))

  pub walk_loop-end :
      (fuel : ℕ) (rest : Bytes) (w : Walk)
      → pointed b w.dtb_cursor ≡ be32_bytes 2 ++ rest
      → w.dtb_cursor + 4 ≤ struct_end
      → 0 < w.node_depth
      → walk_loop (suc fuel) b struct_end w m
        ≡ walk_loop fuel b struct_end
            (record w { dtb_cursor = w.dtb_cursor + 4; node_depth = w.node_depth - 1 })
            m
  unfolding handle_token end_node
  walk_loop-end fuel rest w at inside deep =
      let inner : w.node_depth == 0 ≡ false = ground arith in
      walk_loop-token fuel 2 rest w _ at (omega arith) inside (rw inner refl)

  -- A property, with what is made of it.
  pub walk_loop-property :
      (fuel offset : ℕ) (value rest : Bytes) (w w' : Walk)
      → b.dtb ≤ w.dtb_cursor
      → w.dtb_cursor % 4 ≡ 0
      → pointed b w.dtb_cursor
        ≡ be32_bytes 3
          ++ (be32_bytes (length value) ++ (be32_bytes offset ++ (padded value ++ rest)))
      → w.dtb_cursor + 12 + length (padded value) ≤ struct_end
      → length value < 2 ^ 32
      → offset < w.info.header.size_dt_strings
      → offset < 2 ^ 32
      → use_property b
          (pointed b (plus (plus b.dtb w.info.header.off_dt_strings) offset))
          (w.dtb_cursor + 12)
          (length value)
          (record w { dtb_cursor = w.dtb_cursor + 12 + length (padded value) })
          m
        ≡ (returned w', m)
      → walk_loop (suc fuel) b struct_end w m ≡ walk_loop fuel b struct_end w' m
  unfolding handle_token read_property
  walk_loop-property fuel offset value rest w w' low aligned at inside small named short used =
      let start = w.dtb_cursor + 4 in
      let size = length-padded value in
      let after_value = padded value ++ rest in
      let at_length : pointed b start
          ≡ be32_bytes (length value) ++ (be32_bytes offset ++ after_value) =
        pointed-next b w.dtb_cursor (be32_bytes 3) _ low at in
      let at_offset : pointed b (start + 4) ≡ be32_bytes offset ++ after_value =
        pointed-next b start (be32_bytes (length value)) _ (omega arith) at_length in
      let metadata : ltb (struct_end - start) 8 ≡ false = ground arith in
      let next : plus start 4 ≡ start + 4 = omega (arith, size) in
      let next' : plus (start + 4) 4 ≡ w.dtb_cursor + 12 = omega (arith, size) in
      let room : ltb (struct_end - (w.dtb_cursor + 12)) (length value) ≡ false =
        ground (arith, size) in
      let sum : plus (w.dtb_cursor + 12) (length value) ≡ w.dtb_cursor + 12 + length value =
        omega (arith, size) in
      let after : align (w.dtb_cursor + 12 + length value)
          ≡ w.dtb_cursor + 12 + length (padded value) =
        (align-padded (w.dtb_cursor + 12) value (omega arith) (omega (arith, size))).0 in
      let not_over : ltb struct_end (w.dtb_cursor + 12 + length (padded value)) ≡ false =
        ground arith in
      let has_name : leb w.info.header.size_dt_strings offset ≡ false = ground arith in
      walk_loop-token fuel 3 _ w w' at (omega arith) (omega arith) (
        rw metadata (
          rw (read32-pointed b start (length value) _ m at_length small) (
            rw next (
              rw (read32-pointed b (start + 4) offset _ m at_offset short)
                (rw next' (rw room (rw sum (rw after (rw (not_over, has_name) used)))))))))

  -- The walk behind the token that ends the block.
  abbrev pub ended : Walk → Walk
  ended w = record w {
    dtb_cursor = struct_end;
    end_tokens_encountered = u64 (w.end_tokens_encountered + 1);
  }

  pub walk_loop-finish :
      (fuel : ℕ) (rest : Bytes) (w : Walk)
      → pointed b w.dtb_cursor ≡ be32_bytes 9 ++ rest
      → w.dtb_cursor + 4 ≤ struct_end
      → walk_loop (suc (suc fuel)) b struct_end w m ≡ (returned (ended w), m)
  unfolding walk_loop walk_step handle_token
  walk_loop-finish fuel rest w at inside =
      let not_past : ltb struct_end struct_end ≡ false = ground arith in
      let no_room : ltb (struct_end - struct_end) 4 ≡ true = ground arith in
      walk_loop-token (suc fuel) 9 rest w (ended w) at (omega arith) inside refl
      ∙ rw (not_past, no_room) refl
