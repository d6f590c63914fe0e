-- ===== src/Exception.antt =====
-- arch/arm64/ExceptionHandler.c. The registers that the vector has saved are an array of 64-bit
-- numbers.
pub mod Types
pub mod Syndrome
pub mod Nested
pub mod SystemCall
pub mod Fatal
pub mod Settles
use charcoalos.Exception.Types.{
  exception_class_svc_aarch64, exception_type_sync_el1_sp0, exception_type_sync_el0_64,
  exception_type_sync_el1_spx, ExceptionAction, exception_class_to_string, exception_action_restart,
  exception_type_sync_el0_32, exception_action_resume, exception_type_string,
  exception_action_panic, exception_type_irq_el1_spx,
}
use charcoalos.Console.{literal, print_value, console_print}
use charcoalos.Interrupt.{handle_interrupt_exception, Platform}
use charcoalos.Panic.{halt}
use charcoalos.Machine.{
  ◌>>=◌, ◌>>◌, returned, msr, esr_el1, record_effect, or_fault, far_el1, spsr_el1, Kernel, gets,
  elr_el1, daifset, pure,
}
use charcoalos.Prelude.{
  ℕ, zero, suc, ◌+◌, ◌/◌, ◌^◌, bit_and, Bool, not, ◌&&◌, ◌||◌, Option, none, some, List, ◌==◌,
  if◌then◌else◌, get_elem?,
}

abbrev pub exception_class_from_esr_el1 : ℕ → ℕ
exception_class_from_esr_el1 esr_el1_value = bit_and (esr_el1_value / 2 ^ 26) 0x3F

abbrev pub iss_from_esr_el1 : ℕ → ℕ
iss_from_esr_el1 esr_el1_value = bit_and esr_el1_value 0x01FFFFFF

pub is_sync_exception_type : ℕ → Bool
is_sync_exception_type kind =
    kind == exception_type_sync_el1_sp0
    || kind == exception_type_sync_el1_spx
    || kind == exception_type_sync_el0_64
    || kind == exception_type_sync_el0_32

arch_exception_read_esr_el1 : Kernel ℕ
arch_exception_read_esr_el1 = gets λ m. m.sysreg esr_el1

arch_exception_read_elr_el1 : Kernel ℕ
arch_exception_read_elr_el1 = gets λ m. m.sysreg elr_el1

arch_exception_read_spsr_el1 : Kernel ℕ
arch_exception_read_spsr_el1 = gets λ m. m.sysreg spsr_el1

arch_exception_read_far_el1 : Kernel ℕ
arch_exception_read_far_el1 = gets λ m. m.sysreg far_el1

mask_all_exceptions_for_fatal_path : Kernel (Unit {0})
mask_all_exceptions_for_fatal_path = record_effect (msr daifset 0xf)

set_in_progress : ℕ → Kernel (Unit {0})
set_in_progress value m = (returned tt, record m { exception_in_progress = value })

-- `for (uint64_t i = 0; i < 32; ++i)`, with `left` rounds to go.
print_registers : ℕ → ℕ → List ℕ → Kernel (Unit {0})
print_registers zero i saved_registers = pure tt
print_registers (suc left) i saved_registers = do
  console_print (literal "0x")
  print_value 8 i
  console_print (literal " 0x")
  register_value ← or_fault (get_elem? saved_registers i)
  print_value 8 register_value
  console_print (literal "\n")
  print_registers left (i + 1) saved_registers

-- The diagnostics of lines 284 to 307.
report_exception : ℕ → ℕ → ℕ → ℕ → ℕ → Kernel (Unit {0})
report_exception kind esr elr spsr far = do
  console_print (literal "\n\nSorry, a system error has occurred.\n")
  console_print (literal "Type =  0x")
  print_value 8 kind
  console_print (literal " = ")
  console_print (literal (exception_type_string kind))
  console_print (literal "\n")
  console_print (literal "Class = 0x")
  print_value 8 (exception_class_from_esr_el1 esr)
  console_print (literal " = ")
  console_print (literal (exception_class_to_string (exception_class_from_esr_el1 esr)))
  console_print (literal "\nISS   = 0x")
  print_value 8 (iss_from_esr_el1 esr)
  console_print (literal "\n\n")
  console_print (literal "ESR_EL1:  0x")
  print_value 8 esr
  console_print (literal "\nELR_EL1:  0x")
  print_value 8 elr
  console_print (literal "\nSPSR_EL1: 0x")
  print_value 8 spsr
  console_print (literal "\nFAR_EL1:  0x")
  print_value 8 far
  console_print (literal "\n\n")

-- The diagnostics with the saved registers, to line 321.
pub print_diagnostics : List ℕ → ℕ → ℕ → ℕ → ℕ → ℕ → Kernel (Unit {0})
unfolding print_registers report_exception
print_diagnostics saved_registers kind esr elr spsr far = do
  report_exception kind esr elr spsr far
  console_print (literal "Saved registers (Register Value): \n")
  print_registers 32 0 saved_registers
  console_print (literal "Kernel panic: your computer must be restarted.\n")

-- The exception cannot be handled: lines 269 to 322.
fatal_exception : List ℕ → ℕ → ℕ → ℕ → ℕ → ℕ → Kernel ExceptionAction
unfolding set_in_progress print_diagnostics mask_all_exceptions_for_fatal_path
fatal_exception saved_registers kind esr elr spsr far = do
  in_progress ← gets (λ m. m.exception_in_progress)
  if not (in_progress == 0) then halt else (do
    set_in_progress 1
    mask_all_exceptions_for_fatal_path
    print_diagnostics saved_registers kind esr elr spsr far
    pure exception_action_panic)

-- A system call, lines 252 to 266; `none` where the call is to panic.
system_call : List ℕ → Kernel (Option ExceptionAction)
unfolding set_in_progress
system_call saved_registers = do
  number ← or_fault (get_elem? saved_registers 8)
  if number == 0x4444
      then (do
        console_print (literal "System call received: 0x4444 ... restart\n")
        pure (some exception_action_restart))
      else if not (number == 0x7777)
      then (do
        console_print (literal "System call received: 0x")
        print_value 8 number
        console_print (literal "\n")
        set_in_progress 0
        pure (some exception_action_resume))
      else pure none

-- An interrupt, lines 246 to 249.
interrupt : Platform → Kernel (Option ExceptionAction)
interrupt p = do
  handled ← handle_interrupt_exception p
  pure (if handled then some exception_action_resume else none)

pub handle_exception : Platform → List ℕ → ℕ → Kernel ExceptionAction
unfolding interrupt system_call fatal_exception is_sync_exception_type arch_exception_read_esr_el1
    arch_exception_read_elr_el1 arch_exception_read_spsr_el1 arch_exception_read_far_el1
handle_exception p saved_registers kind = do
  esr ← arch_exception_read_esr_el1
  elr ← arch_exception_read_elr_el1
  spsr ← arch_exception_read_spsr_el1
  far ← arch_exception_read_far_el1
  handled ←
      (if kind == exception_type_irq_el1_spx
        then interrupt p
        else if is_sync_exception_type kind
            && exception_class_from_esr_el1 esr == exception_class_svc_aarch64
        then system_call saved_registers
        else pure none)
  elim handled [
    | some action ↦ pure action
    | none ↦ fatal_exception saved_registers kind esr elr spsr far
  ]
