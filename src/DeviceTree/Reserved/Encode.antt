-- ===== src/DeviceTree/Reserved/Encode.antt =====
-- The table of reserved regions, written as the specification says: what the loop stores.
use charcoalos.DeviceTree.Reserved.Round.{round_last, round_more}
use charcoalos.DeviceTree.Reserved.Entry.{read_entry-last, IsEntry, placed, read_entry-more}
use charcoalos.Console.Print.{emit-nil}
use charcoalos.Shell.Tokens.Loop.{looped}
use charcoalos.DeviceTree.Walk.Tokens.{entered}
use charcoalos.Endian.Decode.{be64_bytes}
use charcoalos.DeviceTree.Encode.Cursor.{pointed-next}
use charcoalos.DeviceTree.Reserved.{reserved_loop}
use charcoalos.DeviceTree.Types.{HardwareInfo, pointed, Blob}
use charcoalos.Memory.{MemoryRegion}
use charcoalos.Prelude.{
  ℕ, suc, ◌+◌, ◌*◌, ◌^◌, ◌≤◌, ◌<◌, ◌≡◌, refl, sym, ap, ◌∙◌, List, [], ◌∷◌, ◌++◌, append_assoc,
  arith, length, drop, All, Bytes, length-snoc,
}
use charcoalos.Machine.{emit, returned, Machine, emit-emit}

-- The addresses and the sizes of the entries.
abbrev pub base_addresses : List MemoryRegion → List ℕ
base_addresses [] = []
base_addresses (r ∷ rs) = r.base_address ∷ base_addresses rs

abbrev pub region_sizes : List MemoryRegion → List ℕ
region_sizes [] = []
region_sizes (r ∷ rs) = r.size ∷ region_sizes rs

-- The array behind the entries and the entry of zeros that ends them.
abbrev pub filled_with : List ℕ → List ℕ → List ℕ
filled_with numbers array = numbers ++ (0 ∷ drop (suc (length numbers)) array)

-- A table, and the entry that ends it.
abbrev pub encode_table : List MemoryRegion → Bytes
encode_table [] = be64_bytes 0 ++ be64_bytes 0
encode_table (r ∷ rs) = be64_bytes r.base_address ++ (be64_bytes r.size ++ encode_table rs)

placed-snoc :
    (info : HardwareInfo) (bases more_bases sizes more_sizes : List ℕ) (x y count : ℕ)
    → placed info (bases ++ (x ∷ [])) more_bases (sizes ++ (y ∷ [])) more_sizes count
      ≡ placed info bases (x ∷ more_bases) sizes (y ∷ more_sizes) count
placed-snoc info bases more_bases sizes more_sizes x y count = λ j. record info {
  reserved_region_base_addresses = append_assoc bases (x ∷ []) more_bases j;
  reserved_region_sizes = append_assoc sizes (y ∷ []) more_sizes j;
  reserved_regions_count = count;
}

module _ (b : Blob) (info : HardwareInfo) (top : b.dtb + info.header.total_size + 16 ≤ 2 ^ 64) where
  -- The loop behind an entry, with the entry on the other side of the split.
  loop_snoc :
      (fuel : ℕ) (r : MemoryRegion) (rs : List MemoryRegion)
      (bases more_bases sizes more_sizes : List ℕ) (x y : ℕ) (m m' : Machine)
      → reserved_loop fuel b
          (length (bases ++ (r.base_address ∷ [])))
          (placed info
            (bases ++ (r.base_address ∷ []))
            more_bases
            (sizes ++ (r.size ∷ []))
            more_sizes
            (length (bases ++ (r.base_address ∷ []))))
          m
        ≡ (
          returned (
              placed info
                (bases ++ (r.base_address ∷ []))
                (filled_with (base_addresses rs) more_bases)
                (sizes ++ (r.size ∷ []))
                (filled_with (region_sizes rs) more_sizes)
                (length (bases ++ (r.base_address ∷ [])) + length rs)),
          m',
        )
      → reserved_loop fuel b
          (length bases + 1)
          (placed info bases
            (r.base_address ∷ more_bases)
            sizes
            (r.size ∷ more_sizes)
            (length bases + 1))
          m
        ≡ (
          returned (
              placed info bases
                (filled_with (base_addresses (r ∷ rs)) (x ∷ more_bases))
                sizes
                (filled_with (region_sizes (r ∷ rs)) (y ∷ more_sizes))
                (length bases + length (r ∷ rs))),
          m',
        )
  loop_snoc fuel r rs bases more_bases sizes more_sizes x y m m' looped =
      let v = r.base_address in
      let w = r.size in
      let size = length-snoc bases v in
      let more = filled_with (base_addresses rs) more_bases in
      let more' = filled_with (region_sizes rs) more_sizes in
      ap
        (λ (k : ℕ).
          reserved_loop fuel b k (placed info bases (v ∷ more_bases) sizes (w ∷ more_sizes) k) m)
        size
      ∙ ap (λ (i : HardwareInfo). reserved_loop fuel b (length (bases ++ (v ∷ []))) i m)
          (sym
            (placed-snoc info bases more_bases sizes more_sizes v w (length (bases ++ (v ∷ [])))))
      ∙ looped
      ∙ ap (λ (i : HardwareInfo). (returned i, m'))
          (placed-snoc info bases more sizes more' v w (length (bases ++ (v ∷ [])) + length rs))
      ∙ ap (λ (k : ℕ). (returned (placed info bases (v ∷ more) sizes (w ∷ more') k), m'))
          (omega (arith, size))

  pub reserved_loop-encode :
      (rs : List MemoryRegion) (fuel : ℕ) (bases more_bases sizes more_sizes : List ℕ)
      (rest : Bytes) (m : Machine)
      → length sizes ≡ length bases
      → length rs < length more_bases
      → length rs < length more_sizes
      → length rs < fuel
      → length bases + length rs < 255
      → info.header.off_mem_rsvmap + 16 * (length bases + length rs + 1) ≤ info.header.total_size
      → All IsEntry rs
      → pointed b (b.dtb + info.header.off_mem_rsvmap + 16 * length bases) ≡ encode_table rs ++ rest
      → (text : Bytes) × (reserved_loop fuel b
            (length bases)
            (placed info bases more_bases sizes more_sizes (length bases))
            m
          ≡ (
            returned (
                placed info bases
                  (filled_with (base_addresses rs) more_bases)
                  sizes
                  (filled_with (region_sizes rs) more_sizes)
                  (length bases + length rs)),
            emit m text,
          ))
  reserved_loop-encode [] (suc fuel) bases (x ∷ more_bases) sizes (y ∷ more_sizes) rest m
        same_length _ _ _ below inside entries at =
      let i = length bases in
      let here = b.dtb + info.header.off_mem_rsvmap + 16 * i in
      let r : MemoryRegion = record { base_address = 0; size = 0 } in
      let last =
        read_entry-last b info bases more_bases sizes more_sizes x y same_length here r rest m
          (omega arith) (omega arith) (omega arith) (omega arith) at refl in
      (
        [],
        round_last b info top fuel i bases (x ∷ more_bases) sizes (y ∷ more_sizes) _ m m
              (omega arith) (omega arith) last
            ∙ (ap
                  (λ (k : ℕ).
                    (returned (placed info bases (0 ∷ more_bases) sizes (0 ∷ more_sizes) k), m))
                  (omega arith)
                ∙ ap
                    (λ (n : Machine). (
                      returned (placed info bases (0 ∷ more_bases) sizes (0 ∷ more_sizes) (i + 0)),
                      n,
                    ))
                    (sym (emit-nil m))),
      )
  reserved_loop-encode (r ∷ rs) (suc fuel) bases (x ∷ more_bases) sizes (y ∷ more_sizes) rest m
        same_length room room' enough below inside entries at =
      let i = length bases in
      let here = b.dtb + info.header.off_mem_rsvmap + 16 * i in
      let later = encode_table rs ++ rest in
      let entry = entries.0 in
      let (text, entered) =
        read_entry-more b info bases more_bases sizes more_sizes x y same_length here r later m
          (omega arith) (omega arith) entry.base_fits entry.size_fits at entry.not_last
          (omega arith) in
      let front = bases ++ (r.base_address ∷ []) in
      let front' = sizes ++ (r.size ∷ []) in
      let size = length-snoc bases r.base_address in
      let size' = length-snoc sizes r.size in
      let there : pointed b (b.dtb + info.header.off_mem_rsvmap + 16 * length front) ≡ later =
        ap (pointed b) (omega (arith, size))
        ∙ pointed-next b here (be64_bytes r.base_address ++ be64_bytes r.size) later (omega arith)
            at in
      let (text', looped) =
        reserved_loop-encode rs fuel front more_bases front' more_sizes rest (emit m text)
          (omega (arith, size, size')) (omega arith) (omega arith) (omega arith)
          (omega (arith, size)) (omega (arith, size)) entries.1 there in
      (
        text ++ text',
        round_more b info top fuel i bases (x ∷ more_bases) sizes (y ∷ more_sizes) _ m (emit m text)
              (omega arith) (omega arith) entered
            ∙ loop_snoc fuel r rs bases more_bases sizes more_sizes x y (emit m text)
                (emit m (text ++ text'))
                (looped
                  ∙ ap
                      (λ (n : Machine). (
                        returned (
                            placed info front (filled_with (base_addresses rs) more_bases) front'
                              (filled_with (region_sizes rs) more_sizes)
                              (length front + length rs)),
                        n,
                      ))
                      (emit-emit m text text')),
      )
  reserved_loop-encode rs fuel bases more_bases sizes more_sizes rest m same_length room room'
        enough below inside entries at =
      absurd (omega arith)
