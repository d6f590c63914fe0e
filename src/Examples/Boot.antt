-- ===== src/Examples/Boot.antt =====
-- The boot on the blob of a tree, with the shell as the client; the timer and the watchdog.
use charcoalos.Examples.RoundTrip.{
  tree_blob, tree_blob-IsBlobOf, tree_blob-IsHarmless, small_header, reserved_there, regions_there,
  small_offset_of, small_tree,
}
use charcoalos.Examples.Tree.{zeros, zeroed_info}
use charcoalos.Examples.Shell.{svc_processor, some_build, idle_client}
use charcoalos.Examples.{quiet_machine}
use charcoalos.Lifecycle.Boots.{kmain-booted, booted, client_of}
use charcoalos.Lifecycle.{kmain, run_client}
use charcoalos.Interrupt.Armed.{initialize_timer-timer_effects, timer_effects}
use charcoalos.Reboot.Watchdog.{kernel_restart-rstc_of, rstc_of}
use charcoalos.Reboot.{kernel_restart, wdog_pm_rstc, wdog_pm_wdog}
use charcoalos.Interrupt.{initialize_timer, rpi, virt}
use charcoalos.Panic.{kernel_halt}
use charcoalos.Machine.{Machine, stopped, halted, store32, returned, ◌>>◌}
use charcoalos.Prelude.{◌+◌, [], ◌∷◌, arith, ◌≡◌, refl, ◌++◌, Bytes}

kmain-booted_example :
    (before : Bytes) × (kmain virt svc_processor some_build
        (zeros 255)
        idle_client
        {A = Unit {0}}
        zeroed_info
        tree_blob
        quiet_machine
      ≡ (run_client virt svc_processor some_build
              (zeros 255)
              idle_client
              (client_of quiet_machine.foreground_client)
            >> kernel_halt)
          (booted virt regions_there before quiet_machine))
kmain-booted_example =
    kmain-booted virt svc_processor some_build (zeros 255) idle_client tree_blob small_header
      reserved_there small_offset_of 1 1 regions_there small_tree zeroed_info quiet_machine
      tree_blob-IsBlobOf tree_blob-IsHarmless refl refl refl

initialize_timer-timer_effects_example : initialize_timer virt quiet_machine ≡ (
  returned tt,
  record quiet_machine { effects = quiet_machine.effects ++ timer_effects virt quiet_machine },
)
initialize_timer-timer_effects_example = initialize_timer-timer_effects virt quiet_machine

-- The registers read 0x102.
abbrev powered_machine : Machine
powered_machine = record quiet_machine { mmio = λ address. 0x102 }

kernel_restart-rstc_of_example : kernel_restart {A = Unit {0}} rpi powered_machine ≡ (
  stopped halted,
  record powered_machine {
    transmitted = powered_machine.output;
    effects =
        store32 wdog_pm_wdog (0x5a000000 + 10)
        ∷ store32 wdog_pm_rstc (0x5a000000 + rstc_of 4 2 2)
        ∷ [];
  },
)
kernel_restart-rstc_of_example =
    kernel_restart-rstc_of powered_machine 4 0 2 refl (omega arith) (omega arith) (omega arith)
