-- ===== src/Examples.antt =====
-- The functions on concrete inputs, and each theorem with hypotheses at one.
mod Tree
mod Regions
mod Traps
mod Text
mod Shell
mod Uart
mod RoundTrip
mod Boot
use charcoalos.Memory.{MemoryRegion}
use charcoalos.Endian.Decode.{big_endian}
use charcoalos.Machine.{Machine}
use charcoalos.Prelude.{ℕ, zero, suc, false, none, some, List, [], ◌∷◌, Bytes}

abbrev machine_with : Bytes → Machine
machine_with input = record {
  output = [];
  transmitted = [];
  input = input;
  ticks_since_boot = 0;
  exception_in_progress = 0;
  foreground_client = none;
  memory = λ _. some 0;
  mmio = λ _. 0;
  big_endian = false;
  sysreg = λ _. 0;
  effects = [];
}

abbrev quiet_machine : Machine
quiet_machine = machine_with []

abbrev no_region : MemoryRegion
no_region = record { base_address = 0; size = 0 }

abbrev no_regions : ℕ → List MemoryRegion
no_regions zero = []
no_regions (suc n) = no_region ∷ no_regions n
