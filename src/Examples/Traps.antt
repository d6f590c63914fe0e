-- ===== src/Examples/Traps.antt =====
-- Interrupts and exceptions.
use charcoalos.Exception.Fatal.{handle_exception-unhandled, unhandled}
use charcoalos.Interrupt.Ticks.{
  service-acknowledged, timer_interrupts, service, acknowledged, service-uptime,
}
use charcoalos.Exception.Types.{exception_type_sync_el1_spx, exception_action_panic}
use charcoalos.Exception.Nested.{Guarded, handle_exception-Guarded}
use charcoalos.Machine.{returned, Machine}
use charcoalos.Examples.{quiet_machine}
use charcoalos.Interrupt.{virt}
use charcoalos.Exception.Syndrome.{esr_el1-fields, esr_el1_of}
use charcoalos.Exception.{exception_class_from_esr_el1, handle_exception, iss_from_esr_el1}
use charcoalos.Uptime.{uptime}
use charcoalos.Prelude.{ℕ, zero, suc, ◌*◌, ◌≡◌, refl, List, [], ◌∷◌, ◌++◌, arith}

-- A timer interrupt, an unknown one, and a timer interrupt.
abbrev three_interrupts : List ℕ
three_interrupts = 0x1e ∷ 0x3ff ∷ 0x1e ∷ []

service-uptime_example :
    (uptime (service virt three_interrupts quiet_machine)).0
    ≡ returned (10 * timer_interrupts three_interrupts)
service-uptime_example = service-uptime virt three_interrupts quiet_machine refl (omega arith)

service-acknowledged_example :
    acknowledged virt (service virt three_interrupts quiet_machine).effects
    ≡ acknowledged virt quiet_machine.effects ++ three_interrupts
service-acknowledged_example = service-acknowledged virt three_interrupts quiet_machine

abbrev registers : ℕ → List ℕ
registers zero = []
registers (suc n) = n ∷ registers n

-- An undefined instruction at EL1, while another exception is in progress.
abbrev busy_machine : Machine
busy_machine = record quiet_machine { exception_in_progress = 1 }

handle_exception-Guarded_example :
    Guarded busy_machine
      (handle_exception virt (registers 32) exception_type_sync_el1_spx busy_machine)
handle_exception-Guarded_example =
    handle_exception-Guarded virt (registers 32) exception_type_sync_el1_spx busy_machine refl

-- Every saved register holds the same number.
abbrev same_registers : ℕ → ℕ → List ℕ
same_registers zero value = []
same_registers (suc n) value = value ∷ same_registers n value

handle_exception-unhandled_example :
    handle_exception virt (same_registers 32 0x7777) exception_type_sync_el1_spx quiet_machine ≡ (
      returned exception_action_panic,
      unhandled (same_registers 32 0x7777) exception_type_sync_el1_spx quiet_machine,
    )
handle_exception-unhandled_example =
    handle_exception-unhandled virt (same_registers 32 0x7777) exception_type_sync_el1_spx
      quiet_machine (omega arith) (λ call. refl) refl refl

-- A system call with the number 7.
esr_el1-fields_example :
    (exception_class_from_esr_el1 (esr_el1_of 0 0x15 1 7) ≡ 0x15)
    × (iss_from_esr_el1 (esr_el1_of 0 0x15 1 7) ≡ 7)
esr_el1-fields_example = esr_el1-fields 0 0x15 1 7 (omega arith) (omega arith) (omega arith)
