-- ===== src/DeviceTree/Reserved/RoundTrip.antt =====
-- kernel/Hardware/DeviceTree.c, lines 108 to 149, on a table that is written as the specification says.
use charcoalos.Console.Hex.{hex_digits, print_value_lem}
use charcoalos.DeviceTree.Reserved.Encode.{
  encode_table, reserved_loop-encode, filled_with, base_addresses, region_sizes,
}
use charcoalos.DeviceTree.Reserved.Entry.{IsEntry}
use charcoalos.Console.Print.{shown, print_literal}
use charcoalos.Shell.Tokens.Loop.{looped}
use charcoalos.DeviceTree.Reserved.{reserved_loop, read_reserved}
use charcoalos.DeviceTree.Types.{HardwareInfo, pointed, Blob}
use charcoalos.Memory.{MemoryRegion}
use charcoalos.Prelude.{
  ℕ, ◌+◌, ◌*◌, ◌^◌, ◌≤◌, ◌<◌, ◌≡◌, refl, ap, ◌∙◌, List, [], ◌++◌, arith, length, All, Bytes,
}
use charcoalos.Machine.{emit, returned, Machine, emit-emit}

-- The information with the table's regions at the front of its arrays, behind them zeros, and their
-- number.
abbrev pub reserving : List MemoryRegion → HardwareInfo → HardwareInfo
reserving rs info = record info {
  reserved_region_base_addresses =
      filled_with (base_addresses rs) info.reserved_region_base_addresses;
  reserved_region_sizes = filled_with (region_sizes rs) info.reserved_region_sizes;
  reserved_regions_count = length rs;
}

reserved_printed :
    (b : Blob) (info info' : HardwareInfo) (text : Bytes) (m : Machine)
    → reserved_loop 256 b 0 (record info { reserved_regions_count = 0 }) m
      ≡ (returned info', emit m text)
    → (out : Bytes) × (read_reserved b info m ≡ (returned info', emit m out))
unfolding read_reserved
reserved_printed b info info' text m looped = (
  ((text ++ shown "Read 0x") ++ hex_digits 8 info'.reserved_regions_count)
      ++ shown " reserved memory regions.\n",
  rw looped (simp (print_literal, print_value_lem, emit-emit) refl),
)

module _ (b : Blob) (info : HardwareInfo) (top : b.dtb + info.header.total_size + 16 ≤ 2 ^ 64)
    (rs : List MemoryRegion) (rest : Bytes) (m : Machine) where
  pub read_reserved-encode_table :
      length info.reserved_region_base_addresses ≡ 255
      → length info.reserved_region_sizes ≡ 255
      → length rs < 255
      → info.header.off_mem_rsvmap + 16 * (length rs + 1) ≤ info.header.total_size
      → All IsEntry rs
      → pointed b (b.dtb + info.header.off_mem_rsvmap) ≡ encode_table rs ++ rest
      → (text : Bytes) × (read_reserved b info m ≡ (returned (reserving rs info), emit m text))
  read_reserved-encode_table room room' below inside entries at =
      let (text, looped) =
        reserved_loop-encode b info top rs 256 [] info.reserved_region_base_addresses []
          info.reserved_region_sizes rest m refl (omega arith) (omega arith) (omega arith)
          (omega arith) (omega arith) entries (ap (pointed b) (omega arith) ∙ at) in
      let count : 0 + length rs ≡ length rs = omega arith in
      reserved_printed b info (reserving rs info) text m (
        looped
        ∙ ap
            (λ (k : ℕ).
              (returned (record (reserving rs info) { reserved_regions_count = k }), emit m text))
            count)
