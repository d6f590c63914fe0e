-- ===== src/Shell/Handlers/Trap.antt =====
-- kernel/Console/Shell.c, `trapsvc_handler`, through the exception vector and the handler.
use charcoalos.Console.Parse.{console_uint64_from_hex_lem}
use charcoalos.Shell.Handlers.Add.{hex_value}
use charcoalos.Shell.Handlers.{svc, Processor, trapsvc_handler, argument, hex_argument}
use charcoalos.Exception.SystemCall.{handle_exception-SystemCall, sync_el1_spx-IsSync, echoed}
use charcoalos.Exception.Types.{exception_class_svc_aarch64, exception_type_sync_el1_spx}
use charcoalos.Strings.Compare.{IsText, terminated}
use charcoalos.Machine.{esr_el1, Machine, returned}
use charcoalos.Interrupt.{Platform}
use charcoalos.Reboot.{take_exception}
use charcoalos.Exception.{exception_class_from_esr_el1}
use charcoalos.Prelude.{ℕ, ◌≡◌, refl, ◌≢◌, false, some, [], ◌∷◌, arith, ◌==◌, get_elem?, Bytes}

-- What the processor does at an `svc`: the vector finds its number in the register `x8`, and the class
-- of a system call in the syndrome register.
pub record TakesSvc (cpu : Processor) : Type 0 where
  pub number_saved : (number : ℕ) → get_elem? (cpu.saved_registers number) 8 ≡ some number
  pub class_set :
      (m : Machine)
      → exception_class_from_esr_el1 ((cpu.enters_exception m).sysreg esr_el1)
        ≡ exception_class_svc_aarch64

svc-echoed :
    (p : Platform) (cpu : Processor) (number : ℕ) (m : Machine)
    → TakesSvc cpu
    → number ≢ 0x4444
    → number ≢ 0x7777
    → svc p cpu number m ≡ (returned tt, echoed number (cpu.enters_exception m))
unfolding svc take_exception
svc-echoed p cpu number m takes no_restart no_panic =
    let echo : number == 0x4444 ≡ false = ground arith in
    rw
      (handle_exception-SystemCall p (cpu.saved_registers number) exception_type_sync_el1_spx number
        (cpu.enters_exception m)
        (record { is_sync = sync_el1_spx-IsSync; class_is = takes.class_set m })
        (takes.number_saved number) no_panic)
      (rw echo refl)

-- On a processor that traps `svc` as documented, `trapsvc` with an argument makes the system call with
-- the number that the argument stands for: unless that is 0x4444 or 0x7777, the handler echoes it, the
-- flag of the exception handler is cleared, and the shell goes on with success.
pub trapsvc_handler-echoed :
    (p : Platform) (cpu : Processor) (name text after : Bytes) (m : Machine)
    → TakesSvc cpu
    → IsText text
    → hex_value text ≢ 0x4444
    → hex_value text ≢ 0x7777
    → trapsvc_handler p cpu 2 (name ∷ terminated text after ∷ []) m
      ≡ (returned 0, echoed (hex_value text) (cpu.enters_exception m))
unfolding trapsvc_handler hex_argument argument
trapsvc_handler-echoed p cpu name text after m takes t no_restart no_panic =
    rw ((console_uint64_from_hex_lem text after t).0)
      (rw (svc-echoed p cpu (hex_value text) m takes no_restart no_panic) refl)
