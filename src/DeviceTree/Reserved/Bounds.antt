-- ===== src/DeviceTree/Reserved/Bounds.antt =====
-- The loop over the reserved regions ends, and keeps within its arrays.
use charcoalos.Console.Print.{print_literal}
use charcoalos.Console.Hex.{print_value_lem}
use charcoalos.DeviceTree.Header.Bounds.{panic-Refused}
use charcoalos.DeviceTree.Reserved.{
  read_reserved, report_region, read_entry, store_number, reserved_loop,
}
use charcoalos.DeviceTree.Types.{plus, DtbHeader, HardwareInfo, read64, Blob}
use charcoalos.DeviceTree.Sound.{IsFilled, Refused}
use charcoalos.Machine.Ends.{Ends, Ends-bind, Anything, Ends-if}
use charcoalos.Machine.{or_fault, Machine}
use charcoalos.Prelude.{
  ℕ, zero, suc, ◌+◌, ◌*◌, ◌≤◌, ◌<◌, ◌≡◌, refl, inr, ◌&&◌, Option, none, some, List, arith, ltb, leb,
  ◌==◌, length, length-set,
}

pub or_fault-Ends :
    {A : Type 0} (o : Option A) (m : Machine) → Ends Refused Anything (or_fault o m).0
or_fault-Ends none m = inr refl
or_fault-Ends (some a) m = tt

read64-Ends : (b : Blob) (address : ℕ) (m : Machine) → Ends Refused Anything (read64 b address m).0
unfolding read64
read64-Ends b address m = or_fault-Ends _ m

store_number-Ends :
    (array : List ℕ) (i v : ℕ) (m : Machine)
    → i < length array
    → Ends Refused (λ r. length r ≡ length array) (store_number array i v m).0
unfolding store_number
store_number-Ends array i v m h = ground (arith, length-set {0} array i v)

report_region-Ends :
    (base size : ℕ) (m : Machine) → Ends Refused Anything (report_region base size m).0
unfolding report_region
report_region-Ends base size m = simp (print_literal, print_value_lem) tt

-- What each round keeps, with the count of the regions found.
pub record IsReserving (h : DtbHeader) (limit : ℕ) (info : HardwareInfo) : Type 0 where
  pub same_header : info.header ≡ h
  pub filled : IsFilled info
  pub count_le : info.reserved_regions_count ≤ limit

read_entry-Ends :
    (b : Blob) (h : DtbHeader) (start i : ℕ) (info : HardwareInfo) (m : Machine)
    → i < 255
    → IsReserving h i info
    → Ends Refused (λ r. IsReserving h (i + 1) r.1) (read_entry b start i info m).0
unfolding read_entry
read_entry-Ends b h start i info m lt r =
    Ends-bind _ _ _ (read64 b start) _ m (read64-Ends b start m) λ base m1 _.
      Ends-bind _ _ _ (store_number info.reserved_region_base_addresses i base) _ m1
        (store_number-Ends info.reserved_region_base_addresses i base m1 (omega arith))
        λ bases m2 e.
          Ends-bind _ _ _ (read64 b (plus start 8)) _ m2 (read64-Ends b _ m2) λ size m3 _.
            Ends-bind _ _ _ (store_number info.reserved_region_sizes i size) _ m3
              (store_number-Ends info.reserved_region_sizes i size m3 (omega arith))
              λ sizes m4 f.
                Ends-if _ _ (base == 0 && size == 0) _ _ m4 (λ _. ground arith)
                  λ _.
                    Ends-bind _ _ _ (report_region base size) _ m4 (report_region-Ends base size m4)
                      λ _ m5 _. ground arith

reserved_loop-Ends :
    (fuel : ℕ) (b : Blob) (h : DtbHeader) (i : ℕ) (info : HardwareInfo) (m : Machine)
    → i + fuel ≡ 256
    → 0 < fuel
    → IsReserving h i info
    → Ends Refused (IsReserving h 255) (reserved_loop fuel b i info m).0
unfolding reserved_loop
reserved_loop-Ends zero b h i info m e p r = absurd (omega arith)
reserved_loop-Ends (suc fuel) b h i info m e p r =
    Ends-if _ _ (leb 255 i) _ _ m (λ _. panic-Refused _ _ m)
      λ below.
        Ends-if _ _ (ltb info.header.total_size (info.header.off_mem_rsvmap + (16 * i + 16))) _ _ m
          (λ _. panic-Refused _ _ m)
          λ _.
            Ends-if _ _ (leb (plus b.dtb info.header.total_size) _) _ _ m (λ _. ground arith)
              λ _.
                Ends-bind _ _ _ (read_entry b _ i info) _ m
                  (read_entry-Ends b h _ i info m (ground arith) r)
                  λ result n kept.
                    Ends-if _ _ result.0 _ _ n (λ _. ground arith)
                      λ _.
                        reserved_loop-Ends fuel b h (i + 1) result.1 n (omega arith) (ground arith)
                          kept

-- From information whose arrays have their lengths and that counts at most sixteen memory regions,
-- each of them usable, the loop over the reserved regions ends, whatever the blob is: by a panic, by
-- a read outside of the blob, or with the header as it was, the arrays of their lengths, the memory
-- regions still usable, and at most 255 reserved regions counted.
pub read_reserved-Ends :
    (b : Blob) (info : HardwareInfo) (m : Machine)
    → IsFilled info
    → Ends Refused (IsReserving info.header 255) (read_reserved b info m).0
unfolding read_reserved
read_reserved-Ends b info m f =
    Ends-bind _ _ _ (reserved_loop 256 b 0 _) _ m
      (reserved_loop-Ends 256 b info.header 0 _ m refl (omega arith) (ground arith))
      λ info' n r. simp (print_literal, print_value_lem) r
