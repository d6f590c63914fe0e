-- ===== src/DeviceTree/Reserved/Round.antt =====
-- kernel/Hardware/DeviceTree.c, lines 112 to 147: a round of the loop, inside of the table.
use charcoalos.DeviceTree.Reserved.Entry.{placed}
use charcoalos.DeviceTree.Walk.Tokens.{entered}
use charcoalos.DeviceTree.Reserved.{reserved_loop, read_entry}
use charcoalos.DeviceTree.Types.{plus, HardwareInfo, Blob}
use charcoalos.Prelude.{
  ℕ, suc, ◌+◌, ◌*◌, ◌^◌, ◌≤◌, ◌<◌, ◌≡◌, refl, true, false, List, arith, ltb, leb,
}
use charcoalos.Machine.{returned, Machine}

module _ (b : Blob) (info : HardwareInfo) (top : b.dtb + info.header.total_size + 16 ≤ 2 ^ 64) where
  -- What the guards of a round say, inside of the table.
  guards :
      (i : ℕ)
      → i < 255
      → info.header.off_mem_rsvmap + (16 * i + 16) ≤ info.header.total_size
      → (plus (plus b.dtb info.header.off_mem_rsvmap) (16 * i)
          ≡ b.dtb + info.header.off_mem_rsvmap + 16 * i)
        × (leb 255 i ≡ false)
        × (ltb info.header.total_size (info.header.off_mem_rsvmap + (16 * i + 16)) ≡ false)
        × (leb
              (plus b.dtb info.header.total_size)
              (plus (b.dtb + info.header.off_mem_rsvmap + 16 * i) 8)
            ≡ false)
  guards i below inside = (omega arith, ground arith, ground arith, ground arith)

  -- A round inside of the table.
  module _ (fuel i : ℕ) (bases more_bases sizes more_sizes : List ℕ) (after : HardwareInfo)
      (m m' : Machine) (below : i < 255)
      (inside : info.header.off_mem_rsvmap + (16 * i + 16) ≤ info.header.total_size) where
    pub round_more :
        read_entry b
            (b.dtb + info.header.off_mem_rsvmap + 16 * i)
            i
            (placed info bases more_bases sizes more_sizes i)
            m
          ≡ (returned (false, after), m')
        → reserved_loop (suc fuel) b i (placed info bases more_bases sizes more_sizes i) m
          ≡ reserved_loop fuel b (i + 1) after m'
    unfolding reserved_loop
    round_more entered =
        let (start, in_array, in_table, in_blob) = guards i below inside in
        rw (start, in_array, in_table) (rw in_blob (rw entered refl))

    pub round_last :
        read_entry b
            (b.dtb + info.header.off_mem_rsvmap + 16 * i)
            i
            (placed info bases more_bases sizes more_sizes i)
            m
          ≡ (returned (true, after), m')
        → reserved_loop (suc fuel) b i (placed info bases more_bases sizes more_sizes i) m
          ≡ (returned after, m')
    unfolding reserved_loop
    round_last entered =
        let (start, in_array, in_table, in_blob) = guards i below inside in
        rw (start, in_array, in_table) (rw in_blob (rw entered refl))
