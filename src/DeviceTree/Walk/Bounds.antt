-- ===== src/DeviceTree/Walk/Bounds.antt =====
-- The tokens of the structure block: each round moves the cursor on, so the fuel is enough.
use charcoalos.Shell.Tokens.Words.{token}
use charcoalos.DeviceTree.Property.Bounds.{IsBetween, align_lem, read_property-Ends, read32-Refused}
use charcoalos.DeviceTree.Header.Bounds.{panic-Refused}
use charcoalos.DeviceTree.Reserved.Bounds.{IsReserving}
use charcoalos.DeviceTree.Walk.{
  end_node, walk_structure, first_walk, fdt_nop, fdt_end, walk_step, walk_loop, fdt_begin_node,
  fdt_prop, begin_node, scan_name, handle_token, fdt_end_node,
}
use charcoalos.DeviceTree.Types.{pointed, plus, Blob, HardwareInfo, DtbHeader, read32}
use charcoalos.DeviceTree.Sound.{Refused}
use charcoalos.DeviceTree.Property.{Walk, align}
use charcoalos.Machine.Ends.{Ends, Ends-if, Ends-bind, Ends-weaken}
use charcoalos.Machine.{Machine, pure, Kernel}
use charcoalos.Prelude.{
  ℕ, zero, suc, ◌+◌, ◌-◌, ◌^◌, ◌≤◌, ◌<◌, refl, inr, Option, none, some, [], ◌∷◌, arith, ltb, ◌==◌,
  Bytes,
}

scan_name-Ends :
    (text : Bytes) (struct_end cursor : ℕ) (m : Machine)
    → struct_end + 4 ≤ 2 ^ 64
    → cursor < struct_end
    → Ends Refused
        (λ terminator. (cursor ≤ terminator) × (terminator < struct_end))
        (scan_name text struct_end cursor m).0
unfolding scan_name
scan_name-Ends [] struct_end cursor m top below = inr refl
scan_name-Ends (c ∷ rest) struct_end cursor m top below =
    Ends-if _ _ (c == 0) _ _ m (λ _. ground arith)
      λ _.
        Ends-if _ _ (ltb struct_end (plus cursor 1)) _ _ m (λ _. panic-Refused _ _ m)
          λ _.
            Ends-if _ _ (plus cursor 1 == struct_end) _ _ m (λ _. panic-Refused _ _ m)
              λ inside.
                Ends-weaken Refused
                  (λ terminator. (plus cursor 1 ≤ terminator) × (terminator < struct_end)) Refused
                  (λ terminator. (cursor ≤ terminator) × (terminator < struct_end))
                  (scan_name rest struct_end (plus cursor 1) m).0 (λ _ t. t)
                  (λ terminator between. ground arith)
                  (scan_name-Ends rest struct_end (plus cursor 1) m top (ground arith))

module _ (b : Blob) (h : DtbHeader) (struct_end : ℕ) (top : struct_end + 4 ≤ 2 ^ 64) where
  begin_node-Ends :
      (w : Walk) (m : Machine)
      → w.dtb_cursor ≤ struct_end
      → IsReserving h 255 w.info
      → Ends Refused (IsBetween h w.dtb_cursor struct_end) (begin_node b struct_end w m).0
  unfolding begin_node
  begin_node-Ends w m below r =
      Ends-if _ _ (w.dtb_cursor == struct_end) _ _ m (λ _. panic-Refused _ _ m)
        λ more.
          Ends-bind _ _ _ (scan_name (pointed b w.dtb_cursor) struct_end w.dtb_cursor) _ m
            (scan_name-Ends (pointed b w.dtb_cursor) struct_end w.dtb_cursor m top (ground arith))
            λ terminator n between.
              (let aligned = align_lem (plus terminator 1) (ground arith) in
                Ends-if _ _ (ltb struct_end (align (plus terminator 1))) _ _ n
                  (λ _. panic-Refused _ _ n) λ inside. ground arith)

  end_node-Ends :
      (w : Walk) (m : Machine)
      → w.dtb_cursor ≤ struct_end
      → IsReserving h 255 w.info
      → Ends Refused (IsBetween h w.dtb_cursor struct_end) (end_node w m).0
  unfolding end_node
  end_node-Ends w m below r =
      Ends-if _ _ (w.node_depth == 0) _ _ m (λ _. panic-Refused _ _ m) λ _. ground arith

  handle_token-Ends :
      (token : ℕ) (w : Walk) (m : Machine)
      → w.dtb_cursor ≤ struct_end
      → IsReserving h 255 w.info
      → Ends Refused (IsBetween h w.dtb_cursor struct_end) (handle_token b struct_end token w m).0
  unfolding handle_token
  handle_token-Ends token w m below r =
      Ends-if _ _ (token == fdt_begin_node) _ _ m (λ _. begin_node-Ends w m below r)
        λ _.
          Ends-if _ _ (token == fdt_end_node) _ _ m (λ _. end_node-Ends w m below r)
            λ _.
              Ends-if _ _ (token == fdt_prop) _ _ m
                (λ _. read_property-Ends b h struct_end w m top below r)
                λ _.
                  Ends-if _ _ (token == fdt_nop) _ _ m (λ _. ground arith)
                    λ _.
                      Ends-if _ _ (token == fdt_end) _ _ m (λ _. ground arith)
                        λ _. panic-Refused _ _ m

  Advanced : ℕ → Option Walk → Type 0
  Advanced cursor none = Unit {0}
  Advanced cursor (some w) = IsBetween h (cursor + 4) struct_end w

  walk_step-Ends :
      (w : Walk) (m : Machine)
      → w.dtb_cursor ≤ struct_end
      → IsReserving h 255 w.info
      → Ends Refused (Advanced w.dtb_cursor) (walk_step b struct_end w m).0
  unfolding walk_step Advanced
  walk_step-Ends w m below r =
      Ends-if _ _ (ltb struct_end w.dtb_cursor) _ _ m (λ _. panic-Refused _ _ m)
        λ _.
          Ends-if _ _ (ltb (struct_end - w.dtb_cursor) 4) _ _ m (λ _. tt)
            λ more. Ends-bind _ _ _ (read32 b w.dtb_cursor) _ m (read32-Refused b _ m) λ token n _.
              Ends-if _ _ (ltb struct_end (plus w.dtb_cursor 4)) _ _ n (λ _. panic-Refused _ _ n)
                λ inside.
                  (let next = record w { dtb_cursor = plus w.dtb_cursor 4 } in
                    Ends-bind _ _ _ (handle_token b struct_end token next) _ n
                      (handle_token-Ends token next n (ground arith) (ground arith))
                      λ w' n' between. ground arith)

  walk_loop-Ends :
      (fuel : ℕ) (w : Walk) (m : Machine)
      → struct_end < w.dtb_cursor + fuel
      → w.dtb_cursor ≤ struct_end
      → IsReserving h 255 w.info
      → Ends Refused (λ w'. IsReserving h 255 w'.info) (walk_loop fuel b struct_end w m).0
  unfolding walk_loop Advanced
  walk_loop-Ends zero w m enough below r = absurd (omega arith)
  walk_loop-Ends (suc fuel) w m enough below r =
      Ends-bind _ (Advanced w.dtb_cursor) _ (walk_step b struct_end w) _ m
        (walk_step-Ends w m below r)
        λ next n advanced.
          (elim next
              as (λ k.
                Advanced w.dtb_cursor k
                → Ends Refused (λ w'. IsReserving h 255 w'.info)
                    ((elim k as (λ _. Kernel Walk) [
                      | none ↦ pure w
                      | some w' ↦ walk_loop fuel b struct_end w'
                    ])
                      n).0) [
                        | none ↦ λ _. r
                        | some w' ↦ λ a.
                            walk_loop-Ends fuel w' n (ground arith) (ground arith) (ground arith)
                      ])
            advanced

-- Where the structure block ends at least four bytes below the end of the address space, and the
-- information has its arrays of their lengths, at most sixteen memory regions, all usable, and at
-- most 255 reserved ones, the walk over the tokens ends, whatever they are: by a panic, by a read
-- outside of the blob, or at the end of the block, with the header as it was, the arrays of their
-- lengths, at most sixteen regions, all usable, and at most 255 reserved ones.
pub walk_structure-Ends :
    (b : Blob) (info : HardwareInfo) (m : Machine)
    → b.dtb + info.header.off_dt_struct + info.header.size_dt_struct + 4 ≤ 2 ^ 64
    → IsReserving info.header 255 info
    → Ends Refused (λ w'. IsReserving info.header 255 w'.info) (walk_structure b info m).0
unfolding walk_structure
walk_structure-Ends b info m top r =
    let h = info.header in
    let start = plus b.dtb h.off_dt_struct in
    walk_loop-Ends b h (plus start h.size_dt_struct) (ground arith) (suc h.size_dt_struct)
      (first_walk start info) m (ground arith) (ground arith) r
