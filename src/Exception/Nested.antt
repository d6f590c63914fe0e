-- ===== src/Exception/Nested.antt =====
-- One exception after another: what `g_exception_in_progress` keeps apart.
use charcoalos.Console.{platform_console_tx_flush}
use charcoalos.Interrupt.Ticks.{handle_interrupt_exception-Leaves}
use charcoalos.Interrupt.{Platform, handle_interrupt_exception}
use charcoalos.Exception.Types.{
  ExceptionAction, exception_action_panic, exception_class_svc_aarch64, exception_type_irq_el1_spx,
  exception_action_resume, exception_action_restart,
}
use charcoalos.Panic.{halt}
use charcoalos.Console.Print.{print_literal}
use charcoalos.Console.Hex.{print_value_lem}
use charcoalos.Machine.Ends.{Leaves, Leaves-bind, Leaves-if}
use charcoalos.Machine.{Outcome, Machine, emit-emit, halted, esr_el1, pure, Stop, Kernel}
use charcoalos.Exception.{
  print_diagnostics, print_registers, fatal_exception, report_exception, set_in_progress,
  system_call, handle_exception, is_sync_exception_type, exception_class_from_esr_el1, interrupt,
}
use charcoalos.Prelude.{
  ℕ, zero, suc, ◌+◌, ◌≤◌, ◌<◌, ◌≡◌, refl, ◌∙◌, true, false, not, ◌&&◌, Option, none, some, List,
  arith, ◌==◌, if◌then◌else◌, length, get_elem?-IsSome,
}

-- What an action comes with, from the machine before to the machine after: a panic is asked for only
-- outside of an exception, and the next one will be under it.
abbrev pub PanicsOnce : Machine → ExceptionAction → Machine → Type 0
PanicsOnce m exception_action_panic n =
    (m.exception_in_progress ≡ 0) × (n.exception_in_progress ≡ 1)
PanicsOnce m exception_action_resume n = Unit {0}
PanicsOnce m exception_action_restart n = Unit {0}

-- What the handling of interrupts and system calls leaves to the rest.
Passes : Machine → Option ExceptionAction → Machine → Type 0
Passes m none n = (n.exception_in_progress ≡ m.exception_in_progress) × (n.output ≡ m.output)
Passes m (some action) n = PanicsOnce m action n

-- The code does not stop, and the flag is as it was; any `S` will do for the stops.
module _ (S : Stop → Machine → Type 0) where
  KeepsFlag : {A : Type 0} → ℕ → Outcome A × Machine → Type 0
  KeepsFlag flag = Leaves S (λ a n. n.exception_in_progress ≡ flag)

  print_registers-KeepsFlag :
      (left i : ℕ) (saved_registers : List ℕ) (m : Machine)
      → i + left ≤ length saved_registers
      → KeepsFlag m.exception_in_progress (print_registers left i saved_registers m)
  unfolding print_registers KeepsFlag
  print_registers-KeepsFlag zero i saved_registers m h = refl
  print_registers-KeepsFlag (suc left) i saved_registers m h =
      let (value, e) = get_elem?-IsSome saved_registers i (omega arith) in
      simp (print_literal, print_value_lem, e, emit-emit)
        (print_registers-KeepsFlag left (i + 1) saved_registers _ (omega arith))

  report_exception-KeepsFlag :
      (kind esr elr spsr far : ℕ) (m : Machine)
      → KeepsFlag m.exception_in_progress (report_exception kind esr elr spsr far m)
  unfolding report_exception KeepsFlag
  report_exception-KeepsFlag kind esr elr spsr far m = simp (print_literal, print_value_lem) refl

  print_diagnostics-KeepsFlag :
      (saved_registers : List ℕ) (kind esr elr spsr far : ℕ) (m : Machine)
      → length saved_registers ≡ 32
      → KeepsFlag m.exception_in_progress
          (print_diagnostics saved_registers kind esr elr spsr far m)
  unfolding print_diagnostics KeepsFlag
  print_diagnostics-KeepsFlag saved_registers kind esr elr spsr far m h =
      Leaves-bind _ _ _ (report_exception kind esr elr spsr far) _ m
        (report_exception-KeepsFlag kind esr elr spsr far m)
        λ _ n same. rw (print_literal "Saved registers (Register Value): \n" n) (
          Leaves-bind _ _ _ (print_registers 32 0 saved_registers) _ _
            (print_registers-KeepsFlag 32 0 saved_registers _ (omega arith))
            λ _ n' same'. simp print_literal (same' ∙ same))

  interrupt-Passes : (p : Platform) (m : Machine) → Leaves S (Passes m) (interrupt p m)
  unfolding interrupt Passes
  interrupt-Passes p m =
      Leaves-bind _ _ _ (handle_interrupt_exception p) _ m (handle_interrupt_exception-Leaves S p m)
        λ handled n same.
          elim handled
            as (λ b.
              Leaves S (Passes m) (pure (if b then some exception_action_resume else none) n)) [
                | true ↦ tt
                | false ↦ same
              ]

  system_call-Passes :
      (saved_registers : List ℕ) (m : Machine)
      → length saved_registers ≡ 32
      → Leaves S (Passes m) (system_call saved_registers m)
  unfolding system_call Passes set_in_progress
  system_call-Passes saved_registers m h =
      let (number, e) = get_elem?-IsSome saved_registers 8 (omega arith) in
      rw e (
        Leaves-if _ _ (number == 0x4444) _ _ m (λ _. simp print_literal tt)
          λ _.
            Leaves-if _ _ (not (number == 0x7777)) _ _ m
              (λ _. simp (print_literal, print_value_lem) tt) λ _. (refl, refl))

-- What an exception leaves behind: the processor is halted only under another one, and nothing was
-- printed.
abbrev pub Guarded : Machine → Outcome ExceptionAction × Machine → Type 0
Guarded m =
    Leaves (λ s n. (s ≡ halted) × (0 < m.exception_in_progress) × (n.output ≡ m.output))
      (PanicsOnce m)

fatal_exception-Guarded :
    (saved_registers : List ℕ) (kind esr elr spsr far : ℕ) (m n : Machine)
    → length saved_registers ≡ 32
    → n.exception_in_progress ≡ m.exception_in_progress
    → n.output ≡ m.output
    → Guarded m (fatal_exception saved_registers kind esr elr spsr far n)
unfolding fatal_exception set_in_progress halt KeepsFlag platform_console_tx_flush
fatal_exception-Guarded saved_registers kind esr elr spsr far m n h flag output =
    Leaves-if _ _ (not (n.exception_in_progress == 0)) _ _ n
      (λ nested. (refl, ground arith, output))
      λ first.
        Leaves-bind _ (λ _ n'. n'.exception_in_progress ≡ 1) _
          (print_diagnostics saved_registers kind esr elr spsr far) _ _
          (print_diagnostics-KeepsFlag _ saved_registers kind esr elr spsr far _ h)
          λ _ n' same. (ground arith, same)

handled-Guarded :
    (saved_registers : List ℕ) (kind esr elr spsr far : ℕ) (m n : Machine)
    (handled : Option ExceptionAction)
    → length saved_registers ≡ 32
    → Passes m handled n
    → Guarded m (
        (elim handled as (λ _. Kernel ExceptionAction) [
          | some action ↦ pure action
          | none ↦ fatal_exception saved_registers kind esr elr spsr far
        ])
          n)
unfolding Passes
handled-Guarded saved_registers kind esr elr spsr far m n none h (flag, output) =
    fatal_exception-Guarded saved_registers kind esr elr spsr far m n h flag output
handled-Guarded saved_registers kind esr elr spsr far m n (some action) h once = once

-- With the 32 saved registers that the vector stores, the handler returns, or halts the processor. It
-- halts only if the flag was set, so under another exception, and has printed nothing then; it asks
-- for a panic only if the flag was not set, and leaves it set, so that the next fatal exception halts.
pub handle_exception-Guarded :
    (p : Platform) (saved_registers : List ℕ) (kind : ℕ) (m : Machine)
    → length saved_registers ≡ 32
    → Guarded m (handle_exception p saved_registers kind m)
unfolding handle_exception Passes
handle_exception-Guarded p saved_registers kind m h =
    let svc =
      is_sync_exception_type kind
      && exception_class_from_esr_el1 (m.sysreg esr_el1) == exception_class_svc_aarch64 in
    Leaves-bind _ (Passes m) _
      (if kind == exception_type_irq_el1_spx
        then interrupt p
        else if svc
        then system_call saved_registers
        else pure none)
      _ m
      (Leaves-if _ _ (kind == exception_type_irq_el1_spx) _ _ m (λ _. interrupt-Passes _ p m)
        λ _.
          Leaves-if _ _ svc (system_call saved_registers) (pure none) m
            (λ _. system_call-Passes _ saved_registers m h) λ _. (refl, refl))
      λ handled n passed. handled-Guarded saved_registers kind _ _ _ _ m n handled h passed
