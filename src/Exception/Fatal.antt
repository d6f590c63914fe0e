-- ===== src/Exception/Fatal.antt =====
-- arch/arm64/ExceptionHandler.c, an exception that cannot be handled, lines 269 to 322.
pub mod Report
use charcoalos.Exception.Fatal.Report.{print_diagnostics_lem, diagnostics}
use charcoalos.Exception.SystemCall.{IsSystemCall}
use charcoalos.Interrupt.{Platform}
use charcoalos.Console.Hex.{hex_digits, print_value_lem}
use charcoalos.Exception.Types.{
  exception_class_to_string, exception_type_string, exception_action_panic,
  exception_type_irq_el1_spx, exception_class_svc_aarch64,
}
use charcoalos.Machine.{
  Machine, returned, emit-emit, emit, far_el1, msr, daifset, SystemRegister, esr_el1, Kernel,
  elr_el1, spsr_el1,
}
use charcoalos.Exception.{
  exception_class_from_esr_el1, iss_from_esr_el1, report_exception, print_registers,
  set_in_progress, handle_exception, is_sync_exception_type, fatal_exception, print_diagnostics,
  system_call,
}
use charcoalos.Console.Print.{emit-nil, shown, print_literal}
use mathlib.Core.Path.{subst}
use charcoalos.Prelude.{
  ℕ, ◌≡◌, refl, ◌≢◌, inl, inr, Bool, true, false, ◌&&◌, some, List, [], ◌∷◌, ◌++◌, arith, ◌==◌,
  ==_iff, Bool-cases, length, get_elem?,
}

-- The machine that a panic is asked for on: the flag is set, the interrupts are masked.
abbrev pub unhandled : List ℕ → ℕ → Machine → Machine
unhandled saved kind m = record (emit m (diagnostics saved kind m.sysreg)) {
  exception_in_progress = 1;
  effects = m.effects ++ msr daifset 0xf ∷ [];
}

fatal_exception-unhandled :
    (saved : List ℕ) (kind : ℕ) (m : Machine)
    → length saved ≡ 32
    → m.exception_in_progress ≡ 0
    → fatal_exception saved kind
        (m.sysreg esr_el1)
        (m.sysreg elr_el1)
        (m.sysreg spsr_el1)
        (m.sysreg far_el1)
        m
      ≡ (returned exception_action_panic, unhandled saved kind m)
unfolding fatal_exception set_in_progress
fatal_exception-unhandled saved kind m h flag =
    let masked = record m {
      exception_in_progress = 1;
      effects = m.effects ++ msr daifset 0xf ∷ [];
    } in
    rw flag (rw (print_diagnostics_lem saved kind masked h) refl)

both : (a b : Bool) → a && b ≡ true → (a ≡ true) × (b ≡ true)
both true true h = (refl, refl)
both true false h = ground (arith, h)
both false b h = ground (arith, h)

-- An exception that is neither an interrupt nor a system call, and the system call 0x7777, with no
-- other exception in progress and 32 saved registers: the handler sets its flag, masks the
-- interrupts, prints the diagnostics, with the class, the syndrome, the four system registers and all
-- saved registers, and asks for a panic; the rest of the machine is as it was.
pub handle_exception-unhandled :
    (p : Platform) (saved : List ℕ) (kind : ℕ) (m : Machine)
    → kind ≢ exception_type_irq_el1_spx
    → (IsSystemCall kind m → get_elem? saved 8 ≡ some 0x7777)
    → length saved ≡ 32
    → m.exception_in_progress ≡ 0
    → handle_exception p saved kind m ≡ (returned exception_action_panic, unhandled saved kind m)
unfolding handle_exception system_call
handle_exception-unhandled p saved kind m other panics h flag =
    let not_irq : kind == exception_type_irq_el1_spx ≡ false = ground (arith, other) in
    let sync = is_sync_exception_type kind in
    let svc = exception_class_from_esr_el1 (m.sysreg esr_el1) == exception_class_svc_aarch64 in
    let fatal = fatal_exception-unhandled saved kind m h flag in
    elim (Bool-cases (sync && svc)) [
      | inl call ↦
          let (is_sync, is_svc) = both sync svc call in
          let number = panics (record { is_sync = is_sync; class_is = (==_iff _ _).0 is_svc }) in
          rw (not_irq, call) (rw number fatal)
      | inr no_call ↦ rw (not_irq, no_call) fatal
    ]
