-- ===== src/DeviceTree/Parse/Sound.antt =====
-- The parser on any blob: what can come out.
use charcoalos.Console.Print.{print_literal}
use charcoalos.Console.Hex.{print_value_lem}
use charcoalos.DeviceTree.Walk.Bounds.{walk_structure-Ends}
use charcoalos.DeviceTree.Header.Bounds.{
  print_header-Ends, panic-Refused, check_header-Ends, read_header-Ends,
}
use charcoalos.DeviceTree.Reserved.Bounds.{IsReserving, read_reserved-Ends}
use charcoalos.DeviceTree.Header.{read_header, check_header, print_header}
use charcoalos.DeviceTree.Reserved.{read_reserved}
use charcoalos.DeviceTree.Walk.{walk_structure}
use charcoalos.DeviceTree.Types.{HardwareInfo, Blob, DtbHeader}
use charcoalos.DeviceTree.Sound.{IsPlaced, IsFilled, Refused, IsSound}
use charcoalos.DeviceTree.Parse.{finish, parse_device_tree_blob, report_cells, parse_blob}
use charcoalos.DeviceTree.Property.{Walk}
use charcoalos.Machine.Ends.{Ends, Ends-bind, Anything, Ends-if, Ends-weaken}
use charcoalos.Machine.{Machine}
use charcoalos.Prelude.{not, some, arith, ◌==◌}

report_cells-Ends :
    (info : HardwareInfo) (m : Machine) → Ends Refused Anything (report_cells info m).0
unfolding report_cells
report_cells-Ends info m = simp (print_literal, print_value_lem) tt

finish-Ends :
    (h : DtbHeader) (w : Walk) (m : Machine)
    → IsReserving h 255 w.info
    → Ends Refused (IsReserving h 255) (finish w m).0
unfolding finish
finish-Ends h w m r =
    Ends-if _ _ (not (w.node_depth == 0)) _ _ m (λ _. panic-Refused _ _ m)
      λ _.
        Ends-if _ _ (not (w.end_tokens_encountered == 1)) _ _ m (λ _. panic-Refused _ _ m)
          λ _. Ends-bind _ _ _ (report_cells w.info) _ m (report_cells-Ends w.info m) λ _ n _. r

-- On any bytes below the last 16 gigabytes of the address space, with an output whose arrays
-- have their lengths and that counts at most sixteen memory regions, each of them usable, as an output of
-- zeros does, the parser ends: a panic halts the processor, or a read falls
-- outside of the blob, or it returns hardware information whose header has the magic number and
-- blocks inside of the blob, with at most sixteen memory regions, each one not empty and ending
-- below 2 ^ 64, and at most 255 reserved regions. It writes in the arrays only, and no loop runs on.
pub parse_device_tree_blob-Ends :
    (info : HardwareInfo) (b : Blob) (m : Machine)
    → IsPlaced b
    → IsFilled info
    → Ends Refused IsSound (parse_device_tree_blob (some info) b m).0
unfolding parse_device_tree_blob parse_blob
parse_device_tree_blob-Ends info b m placed filled =
    Ends-if _ _ (b.dtb == 0) _ _ m (λ _. panic-Refused _ _ m)
      λ _. Ends-bind _ _ _ (read_header b) _ m (read_header-Ends b m placed.bytes) λ header n r.
        Ends-bind _ _ _ (print_header header) _ n (print_header-Ends header n) λ _ n1 _.
          Ends-bind _ _ _ (check_header header) _ n1 (check_header-Ends header n1 r) λ _ n2 checked.
            Ends-bind _ _ _ (read_reserved b (record info { header = header })) _ n2
              (read_reserved-Ends b (record info { header = header }) n2 (ground arith))
              λ info' n3 reserving.
                Ends-bind _ _ _ (walk_structure b info') _ n3
                  (walk_structure-Ends b info' n3 (rw reserving.same_header (ground arith))
                    (ground arith))
                  λ w n4 kept.
                    Ends-weaken Refused (IsReserving info'.header 255) Refused IsSound
                      (finish w n4).0 (λ _ t. t) (λ result done. ground arith)
                      (finish-Ends info'.header w n4 kept)
