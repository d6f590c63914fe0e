-- ===== src/Interrupt/Start.antt =====
-- The start of the timer, which always returns.
use charcoalos.Console.Prints.{Prints}
use charcoalos.Console.Print.{print_literal, shown}
use charcoalos.Console.Hex.{print_value_lem, hex_digits}
use charcoalos.Machine.{Machine, returned, emit-emit}
use charcoalos.Interrupt.{
  initialize_timer, set_bits, read_timer_frequency_in_hz, load, Platform, enable_group,
  print_timer_diagnostics, rpi, virt, gicc_iidr, gicd_typer, gicd_iidr,
}
use charcoalos.Prelude.{◌≡◌, refl, ◌++◌}

pub initialize_timer-returned :
    (p : Platform) (m : Machine) → (initialize_timer p m).0 ≡ returned tt
unfolding initialize_timer enable_group set_bits read_timer_frequency_in_hz
initialize_timer-returned rpi m = refl
initialize_timer-returned virt m = refl

pub print_timer_diagnostics-returned :
    (p : Platform) (m : Machine) → (print_timer_diagnostics p m).0 ≡ returned tt
unfolding print_timer_diagnostics load
print_timer_diagnostics-returned p m = simp (print_literal, print_value_lem) refl

pub print_timer_diagnostics-Prints : (p : Platform) → Prints (print_timer_diagnostics p)
unfolding print_timer_diagnostics load
print_timer_diagnostics-Prints p m = (
  (((((shown "Timer diagnostics\n  GICD_TYPER: 0x" ++ hex_digits 4 (m.mmio (gicd_typer p)))
              ++ shown "\n  GICD_IIDR:  0x")
            ++ hex_digits 4 (m.mmio (gicd_iidr p)))
          ++ shown "\n  GICC_IIDR:  0x")
        ++ hex_digits 4 (m.mmio (gicc_iidr p)))
      ++ shown "\n",
  simp (print_literal, print_value_lem, emit-emit) refl,
)
