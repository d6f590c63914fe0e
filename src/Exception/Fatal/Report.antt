-- ===== src/Exception/Fatal/Report.antt =====
-- arch/arm64/ExceptionHandler.c, the diagnostics of `handle_exception`, lines 284 to 321.
use charcoalos.Console.Hex.{hex_digits, print_value_lem}
use charcoalos.Exception.Types.{exception_class_to_string, exception_type_string}
use charcoalos.Machine.{
  Machine, returned, emit-emit, emit, far_el1, SystemRegister, esr_el1, Kernel, elr_el1, spsr_el1,
}
use charcoalos.Exception.{
  exception_class_from_esr_el1, iss_from_esr_el1, report_exception, print_registers,
  print_diagnostics,
}
use charcoalos.Console.Print.{emit-nil, shown, print_literal}
use mathlib.Core.Path.{subst}
use charcoalos.Prelude.{
  ℕ, suc, ◌+◌, ◌≡◌, sym, ap, ap₂, ◌∙◌, some, List, [], ◌∷◌, ◌++◌, append_assoc, length, get_elem?,
  Bytes, get_elem?-append, length-snoc,
}

-- The machine after the pieces were sent to the console, one after the other.
emits : Machine → List Bytes → Machine
emits m [] = m
emits m (piece ∷ pieces) = emits (emit m piece) pieces

abbrev concat : List Bytes → Bytes
concat [] = []
concat (piece ∷ pieces) = piece ++ concat pieces

emits-concat : (m : Machine) (pieces : List Bytes) → emits m pieces ≡ emit m (concat pieces)
unfolding emits
emits-concat m [] = sym (emit-nil m)
emits-concat m (piece ∷ pieces) =
    emits-concat (emit m piece) pieces ∙ emit-emit m piece (concat pieces)

-- What the diagnostics say of the exception: its kind, class and syndrome with their names, and the
-- four system registers.
abbrev report_pieces : ℕ → ℕ → ℕ → ℕ → ℕ → List Bytes
report_pieces kind esr elr spsr far =
    shown "\n\nSorry, a system error has occurred.\n"
    ∷ shown "Type =  0x"
    ∷ hex_digits 8 kind
    ∷ shown " = "
    ∷ shown (exception_type_string kind)
    ∷ shown "\n"
    ∷ shown "Class = 0x"
    ∷ hex_digits 8 (exception_class_from_esr_el1 esr)
    ∷ shown " = "
    ∷ shown (exception_class_to_string (exception_class_from_esr_el1 esr))
    ∷ shown "\nISS   = 0x"
    ∷ hex_digits 8 (iss_from_esr_el1 esr)
    ∷ shown "\n\n"
    ∷ shown "ESR_EL1:  0x"
    ∷ hex_digits 8 esr
    ∷ shown "\nELR_EL1:  0x"
    ∷ hex_digits 8 elr
    ∷ shown "\nSPSR_EL1: 0x"
    ∷ hex_digits 8 spsr
    ∷ shown "\nFAR_EL1:  0x"
    ∷ hex_digits 8 far
    ∷ shown "\n\n"
    ∷ []

report_text : ℕ → ℕ → ℕ → ℕ → ℕ → Bytes
report_text kind esr elr spsr far = concat (report_pieces kind esr elr spsr far)

-- A line for each saved register: its number, from `i` on, and its value.
register_line : ℕ → ℕ → Bytes
register_line i value =
    concat (shown "0x" ∷ hex_digits 8 i ∷ shown " 0x" ∷ hex_digits 8 value ∷ shown "\n" ∷ [])

abbrev register_lines : ℕ → List ℕ → Bytes
register_lines i [] = []
register_lines i (value ∷ others) = register_line i value ++ register_lines (i + 1) others

report_exception_lem :
    (kind esr elr spsr far : ℕ) (m : Machine)
    → report_exception kind esr elr spsr far m
      ≡ (returned tt, emit m (report_text kind esr elr spsr far))
unfolding report_exception report_text emits
report_exception_lem kind esr elr spsr far m =
    simp (print_literal, print_value_lem)
      (ap (λ (x : Machine). (returned tt, x))
        (emits-concat m (report_pieces kind esr elr spsr far)))

print_registers_step :
    (left i value : ℕ) (saved : List ℕ) (m : Machine)
    → get_elem? saved i ≡ some value
    → print_registers (suc left) i saved m
      ≡ print_registers left (i + 1) saved (emit m (register_line i value))
unfolding print_registers register_line emits
print_registers_step left i value saved m e =
    simp (print_literal, print_value_lem, e)
      (ap (print_registers left (i + 1) saved) (
        emits-concat m
          (shown "0x" ∷ hex_digits 8 i ∷ shown " 0x" ∷ hex_digits 8 value ∷ shown "\n" ∷ [])))

print_registers_lem :
    (saved before : List ℕ) (m : Machine)
    → print_registers (length saved) (length before) (before ++ saved) m
      ≡ (returned tt, emit m (register_lines (length before) saved))
unfolding print_registers
print_registers_lem [] before m = ap (λ (x : Machine). (returned tt, x)) (sym (emit-nil m))
print_registers_lem (value ∷ others) before m =
    let before' = before ++ (value ∷ []) in
    let line = register_line (length before) value in
    let next : print_registers (length others) (length before + 1) (before ++ (value ∷ others))
        ≡ print_registers (length others) (length before') (before' ++ others) =
      ap₂ (print_registers (length others)) (length-snoc before value)
        (sym (append_assoc before (value ∷ []) others)) in
    print_registers_step (length others) (length before) value (before ++ (value ∷ others)) m
      (get_elem?-append before others value)
    ∙ ap (λ (k : Kernel (Unit {0})). k (emit m line)) next
    ∙ print_registers_lem others before' (emit m line)
    ∙ ap (λ (x : Machine). (returned tt, x))
        (emit-emit m line (register_lines (length before') others)
          ∙ ap (λ (i : ℕ). emit m (line ++ register_lines i others))
              (sym (length-snoc before value)))

-- All that is printed, for the saved registers, the kind and the system registers of a machine.
pub diagnostics : List ℕ → ℕ → (SystemRegister → ℕ) → Bytes
diagnostics saved kind sysreg = concat (
    report_text kind (sysreg esr_el1) (sysreg elr_el1) (sysreg spsr_el1) (sysreg far_el1)
    ∷ shown "Saved registers (Register Value): \n"
    ∷ register_lines 0 saved
    ∷ shown "Kernel panic: your computer must be restarted.\n"
    ∷ [])

pub print_diagnostics_lem :
    (saved : List ℕ) (kind : ℕ) (m : Machine)
    → length saved ≡ 32
    → print_diagnostics saved kind
        (m.sysreg esr_el1)
        (m.sysreg elr_el1)
        (m.sysreg spsr_el1)
        (m.sysreg far_el1)
        m
      ≡ (returned tt, emit m (diagnostics saved kind m.sysreg))
unfolding print_diagnostics diagnostics emits
print_diagnostics_lem saved kind m h =
    let report =
      report_text kind (m.sysreg esr_el1) (m.sysreg elr_el1) (m.sysreg spsr_el1)
        (m.sysreg far_el1) in
    let title = shown "Saved registers (Register Value): \n" in
    let registers : (n : Machine)
        → print_registers 32 0 saved n ≡ (returned tt, emit n (register_lines 0 saved)) =
      λ n.
        subst
          (λ (k : ℕ). print_registers k 0 saved n ≡ (returned tt, emit n (register_lines 0 saved)))
          h (print_registers_lem saved [] n) in
    rw
      (
        report_exception_lem kind (m.sysreg esr_el1) (m.sysreg elr_el1) (m.sysreg spsr_el1)
            (m.sysreg far_el1) m,
        print_literal "Saved registers (Register Value): \n" (emit m report),
        registers (emit (emit m report) title),
      )
      (simp print_literal (
        ap (λ (x : Machine). (returned tt, x))
          (emits-concat m (
            report
            ∷ title
            ∷ register_lines 0 saved
            ∷ shown "Kernel panic: your computer must be restarted.\n"
            ∷ []))))
