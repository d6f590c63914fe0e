-- ===== src/Exception/Settles.antt =====
-- The handling of exceptions stops properly and leaves the console's input alone.
use charcoalos.Console.Settles.{printing}
use charcoalos.Interrupt.Settles.{Settles-handle_interrupt}
use charcoalos.Exception.Types.{ExceptionAction}
use charcoalos.Panic.Settles.{Settles-halt}
use charcoalos.Machine.Settles.{Settles-pure, SettlesOn, Settles}
use charcoalos.Interrupt.{Platform}
use charcoalos.Exception.{
  report_exception, print_diagnostics, fatal_exception, interrupt, system_call, handle_exception,
  print_registers, set_in_progress,
}
use charcoalos.Machine.{pure}
use charcoalos.Prelude.{ℕ, zero, suc, ◌+◌, refl, Option, none, some, List}

Settles-set_in_progress : (value : ℕ) → Settles (set_in_progress value)
unfolding SettlesOn set_in_progress
Settles-set_in_progress value m = (tt, refl)

Settles-print_registers : (left i : ℕ) (saved : List ℕ) → Settles (print_registers left i saved)
unfolding print_registers
Settles-print_registers zero i saved = Settles-pure tt
Settles-print_registers (suc left) i saved =
    let rest = Settles-print_registers left (i + 1) saved in search (printing, rest) depth 12

Settles-report_exception :
    (kind esr elr spsr far : ℕ) → Settles (report_exception kind esr elr spsr far)
unfolding report_exception
Settles-report_exception kind esr elr spsr far = search printing depth 40

Settles-print_diagnostics :
    (saved : List ℕ) (kind esr elr spsr far : ℕ)
    → Settles (print_diagnostics saved kind esr elr spsr far)
unfolding print_diagnostics
Settles-print_diagnostics saved kind esr elr spsr far =
    search (printing, Settles-report_exception, Settles-print_registers) depth 8

Settles-fatal_exception :
    (saved : List ℕ) (kind esr elr spsr far : ℕ)
    → Settles (fatal_exception saved kind esr elr spsr far)
unfolding fatal_exception
Settles-fatal_exception saved kind esr elr spsr far =
    search (printing, Settles-halt, Settles-set_in_progress, Settles-print_diagnostics) depth 12

Settles-system_call : (saved : List ℕ) → Settles (system_call saved)
unfolding system_call
Settles-system_call saved = search (printing, Settles-set_in_progress) depth 12

Settles-interrupt : (p : Platform) → Settles (interrupt p)
unfolding interrupt
Settles-interrupt p = search (printing, Settles-handle_interrupt) depth 8

module _ (saved : List ℕ) (kind esr elr spsr far : ℕ) where
  Settles-handled :
      (handled : Option ExceptionAction)
      → Settles (elim handled [
        | some action ↦ pure action
        | none ↦ fatal_exception saved kind esr elr spsr far
      ])
  Settles-handled none = Settles-fatal_exception saved kind esr elr spsr far
  Settles-handled (some action) = Settles-pure action

pub Settles-handle_exception :
    (p : Platform) (saved : List ℕ) (kind : ℕ) → Settles (handle_exception p saved kind)
unfolding handle_exception
Settles-handle_exception p saved kind =
    search (printing, Settles-interrupt, Settles-system_call, Settles-handled) depth 12
