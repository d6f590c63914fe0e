-- ===== src/Exception/SystemCall.antt =====
-- arch/arm64/ExceptionHandler.c, a system call: what is printed, and which action is asked for.
use charcoalos.Console.Print.{print_literal, shown}
use charcoalos.Console.Hex.{hex_digits, print_value_lem}
use charcoalos.Exception.Types.{
  exception_action_restart, exception_class_svc_aarch64, exception_action_resume,
  exception_type_irq_el1_spx, exception_type_sync_el1_spx,
}
use charcoalos.Interrupt.{Platform}
use charcoalos.Exception.{
  set_in_progress, exception_class_from_esr_el1, system_call, is_sync_exception_type,
  handle_exception,
}
use charcoalos.Machine.{emit-emit, Machine, emit, esr_el1, returned}
use charcoalos.Prelude.{
  ℕ, ◌≡◌, refl, ap, ◌≢◌, inl, inr, true, false, some, List, ◌++◌, arith, ◌==◌, if◌then◌else◌,
  Bool-cases, get_elem?,
}

-- The exception is a trapped `svc` instruction.
pub record IsSystemCall (kind : ℕ) (m : Machine) : Type 0 where
  pub is_sync : is_sync_exception_type kind ≡ true
  pub class_is : exception_class_from_esr_el1 (m.sysreg esr_el1) ≡ exception_class_svc_aarch64

-- The machine after a call that is echoed.
abbrev pub echoed : ℕ → Machine → Machine
echoed number m =
    record (emit m ((shown "System call received: 0x" ++ hex_digits 8 number) ++ shown "\n")) {
      exception_in_progress = 0;
    }

sync-not-irq :
    (kind : ℕ) → is_sync_exception_type kind ≡ true → kind == exception_type_irq_el1_spx ≡ false
unfolding is_sync_exception_type
sync-not-irq kind h = ground arith

-- A system call with a number other than 0x4444 and 0x7777 prints the number, clears the flag of the
-- exception handler, and resumes; 0x4444 prints that the system restarts and asks for a restart.
pub handle_exception-SystemCall :
    (p : Platform) (saved_registers : List ℕ) (kind number : ℕ) (m : Machine)
    → IsSystemCall kind m
    → get_elem? saved_registers 8 ≡ some number
    → number ≢ 0x7777
    → handle_exception p saved_registers kind m ≡ (
        if number == 0x4444
        then (
          returned exception_action_restart,
          emit m (shown "System call received: 0x4444 ... restart\n"),
        )
        else (returned exception_action_resume, echoed number m))
unfolding handle_exception system_call set_in_progress
handle_exception-SystemCall p saved_registers kind number m call e other =
    let not_irq = sync-not-irq kind call.is_sync in
    let not_panic : number == 0x7777 ≡ false = ground arith in
    let svc : exception_class_from_esr_el1 (m.sysreg esr_el1) == exception_class_svc_aarch64
        ≡ true =
      ground (arith, call.class_is) in
    rw (not_irq, call.is_sync)
      (rw svc (
        rw e (elim (Bool-cases (number == 0x4444)) [
          | inl restart ↦ rw restart (simp print_literal refl)
          | inr echo ↦
              rw (echo, not_panic)
                (simp (print_literal, print_value_lem, emit-emit)
                  (ap
                    (λ (x : Machine).
                      (returned exception_action_resume, record x { exception_in_progress = 0 }))
                    (emit-emit m (shown "System call received: 0x" ++ hex_digits 8 number)
                      (shown "\n"))))
        ])))

pub sync_el1_spx-IsSync : is_sync_exception_type exception_type_sync_el1_spx ≡ true
unfolding is_sync_exception_type
sync_el1_spx-IsSync = refl
