-- ===== src/DeviceTree/Reserved/Entry.antt =====
-- kernel/Hardware/DeviceTree.c, lines 128 to 145: one entry of a table that is written as the
-- specification says.
use charcoalos.Console.Prints.{Prints, Prints-then, Prints-value, Prints-literal}
use charcoalos.Endian.Decode.{read_be-encode, be64_bytes}
use charcoalos.DeviceTree.Encode.Cursor.{pointed-next, plus_lem}
use charcoalos.DeviceTree.Reserved.{report_region, read_entry, store_number}
use charcoalos.DeviceTree.Types.{plus, HardwareInfo, pointed, Blob, read64}
use charcoalos.Memory.{MemoryRegion}
use charcoalos.Prelude.{
  ℕ, ◌+◌, ◌^◌, ◌≤◌, ◌<◌, ◌≡◌, refl, sym, true, false, ◌&&◌, List, ◌∷◌, ◌++◌, arith, ltb, ◌==◌,
  length, length-append, u64, Bytes, set-append,
}
use charcoalos.Machine.{emit, returned, Machine}

-- An entry of the table is not the one that ends it.
pub record IsEntry (r : MemoryRegion) : Type 0 where
  pub base_fits : r.base_address < 2 ^ 64
  pub size_fits : r.size < 2 ^ 64
  pub not_last : r.base_address == 0 && r.size == 0 ≡ false

-- The arrays in two parts, and the count.
abbrev pub placed : HardwareInfo → List ℕ → List ℕ → List ℕ → List ℕ → ℕ → HardwareInfo
placed info bases more_bases sizes more_sizes count = record info {
  reserved_region_base_addresses = bases ++ more_bases;
  reserved_region_sizes = sizes ++ more_sizes;
  reserved_regions_count = count;
}

read64-pointed :
    (b : Blob) (c v : ℕ) (rest : Bytes) (m : Machine)
    → pointed b c ≡ be64_bytes v ++ rest
    → v < 2 ^ 64
    → read64 b c m ≡ (returned v, m)
unfolding read64
read64-pointed b c v rest m e h = rw (e, (read_be-encode 0 v rest (omega arith) h).1) refl

store_number_end :
    (front back : List ℕ) (x v : ℕ) (m : Machine)
    → store_number (front ++ (x ∷ back)) (length front) v m ≡ (returned (front ++ (v ∷ back)), m)
unfolding store_number
store_number_end front back x v m =
    let inside : ltb (length front) (length (front ++ (x ∷ back))) ≡ true =
      ground (arith, length-append {0} front (x ∷ back)) in
    rw inside (rw (set-append {0} front back x v) refl)

report_region-Prints : (base size : ℕ) → Prints (report_region base size)
unfolding report_region
report_region-Prints base size = Prints-then _ _ (Prints-literal _) (
    Prints-then _ _ (Prints-value 8 base) (
      Prints-then _ _ (Prints-literal _)
        (Prints-then _ _ (Prints-value 8 size) (Prints-literal _))))

module _ (b : Blob) (info : HardwareInfo) (bases more_bases sizes more_sizes : List ℕ) (x y : ℕ)
    (same_length : length sizes ≡ length bases) (start : ℕ) (r : MemoryRegion) (rest : Bytes)
    (m : Machine) (low : b.dtb ≤ start) (top : start + 8 < 2 ^ 64)
    (base_fits : r.base_address < 2 ^ 64) (size_fits : r.size < 2 ^ 64)
    (at : pointed b start ≡ be64_bytes r.base_address ++ (be64_bytes r.size ++ rest)) where
  pub read_entry-more :
      r.base_address == 0 && r.size == 0 ≡ false
      → length bases + 1 < 2 ^ 64
      → (text : Bytes) × (read_entry b start
            (length bases)
            (placed info bases (x ∷ more_bases) sizes (y ∷ more_sizes) (length bases))
            m
          ≡ (
            returned (
              false,
              placed info bases
                  (r.base_address ∷ more_bases)
                  sizes
                  (r.size ∷ more_sizes)
                  (length bases + 1),
            ),
            emit m text,
          ))
  unfolding read_entry
  read_entry-more not_last small =
      let base = read64-pointed b start r.base_address _ m at base_fits in
      let next : plus start 8 ≡ start + 8 = plus_lem start 8 top in
      let behind : pointed b (start + 8) ≡ be64_bytes r.size ++ rest =
        pointed-next b start (be64_bytes r.base_address) (be64_bytes r.size ++ rest) low at in
      let size = read64-pointed b (start + 8) r.size rest m behind size_fits in
      let stored = store_number_end bases more_bases x r.base_address m in
      let stored' : store_number (sizes ++ (y ∷ more_sizes)) (length bases) r.size m
          ≡ (returned (sizes ++ (r.size ∷ more_sizes)), m) =
        rw (sym same_length) (store_number_end sizes more_sizes y r.size m) in
      let count : u64 (length bases + 1) ≡ length bases + 1 = omega arith in
      let (text, printed) = report_region-Prints r.base_address r.size m in
      (text, simp (base, stored, next, size, stored', not_last, printed, count) refl)

  pub read_entry-last :
      r.base_address == 0 && r.size == 0 ≡ true
      → read_entry b start
          (length bases)
          (placed info bases (x ∷ more_bases) sizes (y ∷ more_sizes) (length bases))
          m
        ≡ (
          returned (
            true,
            placed info bases
                (r.base_address ∷ more_bases)
                sizes
                (r.size ∷ more_sizes)
                (length bases),
          ),
          m,
        )
  unfolding read_entry
  read_entry-last last =
      let base = read64-pointed b start r.base_address _ m at base_fits in
      let next : plus start 8 ≡ start + 8 = plus_lem start 8 top in
      let behind : pointed b (start + 8) ≡ be64_bytes r.size ++ rest =
        pointed-next b start (be64_bytes r.base_address) (be64_bytes r.size ++ rest) low at in
      let size = read64-pointed b (start + 8) r.size rest m behind size_fits in
      let stored = store_number_end bases more_bases x r.base_address m in
      let stored' : store_number (sizes ++ (y ∷ more_sizes)) (length bases) r.size m
          ≡ (returned (sizes ++ (r.size ∷ more_sizes)), m) =
        rw (sym same_length) (store_number_end sizes more_sizes y r.size m) in
      simp (base, stored, next, size, stored', last) refl
