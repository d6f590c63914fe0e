-- ===== src/Examples/Regions.antt =====
-- The register of a memory node, with one region in two cells and one cell.
use charcoalos.Memory.Safety.{SafeRegions, physical_memory_regions-Ends}
use charcoalos.Memory.Regions.{physical_memory_regions-encode, encode_regions}
use charcoalos.Machine.Ends.{Ends}
use charcoalos.Memory.{MemoryRegion, physical_memory_regions}
use charcoalos.Machine.{returned, halted}
use charcoalos.Examples.{quiet_machine, no_regions}
use charcoalos.Prelude.{◌≡◌, refl, inl, inr, List, [], ◌∷◌, ◌++◌, arith, length, drop}

abbrev one_region : List MemoryRegion
one_region = record { base_address = 0x40000000; size = 0x8000000 } ∷ []

physical_memory_regions-encode_example :
    physical_memory_regions
      (no_regions 16)
      2
      1
      (encode_regions 2 1 one_region ++ [])
      (length (encode_regions 2 1 one_region))
      quiet_machine
    ≡ (returned (one_region ++ drop 1 (no_regions 16), 1), quiet_machine)
physical_memory_regions-encode_example =
    physical_memory_regions-encode 2 1 (inr refl) (inl refl) one_region (no_regions 16) []
      quiet_machine
      (
        (record { not_empty = omega arith; no_overflow = omega arith }, omega arith, omega arith),
        tt,
      )
      (omega arith) (omega arith) refl

physical_memory_regions-Ends_example :
    Ends
      (λ s. s ≡ halted)
      (SafeRegions 2 1 12)
      (physical_memory_regions
        (no_regions 16)
        2
        1
        (encode_regions 2 1 one_region)
        12
        quiet_machine).0
physical_memory_regions-Ends_example =
    physical_memory_regions-Ends (no_regions 16) 2 1 (encode_regions 2 1 one_region) 12
      quiet_machine (omega arith) refl
