-- ===== src/Exception/Types.antt =====
-- arch/arm64/ExceptionTypes.h, and the names that arch/arm64/ExceptionHandler.c prints.
use charcoalos.Prelude.{ℕ, List, [], ◌∷◌, ◌==◌, if◌then◌else◌, String}

abbrev pub exception_type_sync_el1_sp0 : ℕ
exception_type_sync_el1_sp0 = 0

abbrev pub exception_type_irq_el1_sp0 : ℕ
exception_type_irq_el1_sp0 = 1

abbrev pub exception_type_fiq_el1_sp0 : ℕ
exception_type_fiq_el1_sp0 = 2

abbrev pub exception_type_serror_el1_sp0 : ℕ
exception_type_serror_el1_sp0 = 3

abbrev pub exception_type_sync_el1_spx : ℕ
exception_type_sync_el1_spx = 4

abbrev pub exception_type_irq_el1_spx : ℕ
exception_type_irq_el1_spx = 5

abbrev pub exception_type_fiq_el1_spx : ℕ
exception_type_fiq_el1_spx = 6

abbrev pub exception_type_serror_el1_spx : ℕ
exception_type_serror_el1_spx = 7

abbrev pub exception_type_sync_el0_64 : ℕ
exception_type_sync_el0_64 = 8

abbrev pub exception_type_irq_el0_64 : ℕ
exception_type_irq_el0_64 = 9

abbrev pub exception_type_fiq_el0_64 : ℕ
exception_type_fiq_el0_64 = 10

abbrev pub exception_type_serror_el0_64 : ℕ
exception_type_serror_el0_64 = 11

abbrev pub exception_type_sync_el0_32 : ℕ
exception_type_sync_el0_32 = 12

abbrev pub exception_type_irq_el0_32 : ℕ
exception_type_irq_el0_32 = 13

abbrev pub exception_type_fiq_el0_32 : ℕ
exception_type_fiq_el0_32 = 14

abbrev pub exception_type_serror_el0_32 : ℕ
exception_type_serror_el0_32 = 15

abbrev pub exception_class_svc_aarch64 : ℕ
exception_class_svc_aarch64 = 0x15

pub data ExceptionAction : Type 0 where
  exception_action_resume exception_action_restart exception_action_panic : ExceptionAction

-- The first entry whose key is the number; a `switch` over constants.
name_in : List (ℕ × String) → String → ℕ → String
name_in [] unknown n = unknown
name_in ((key, name) ∷ names) unknown n = if n == key then name else name_in names unknown n

abbrev type_names : List (ℕ × String)
type_names =
    (exception_type_sync_el1_sp0, "SYNC_EL1_SP0")
    ∷ (exception_type_irq_el1_sp0, "IRQ_EL1_SP0")
    ∷ (exception_type_fiq_el1_sp0, "FIQ_EL1_SP0")
    ∷ (exception_type_serror_el1_sp0, "SERROR_EL1_SP0")
    ∷ (exception_type_sync_el1_spx, "SYNC_EL1_SPX")
    ∷ (exception_type_irq_el1_spx, "IRQ_EL1_SPX")
    ∷ (exception_type_fiq_el1_spx, "FIQ_EL1_SPX")
    ∷ (exception_type_serror_el1_spx, "SERROR_EL1_SPX")
    ∷ (exception_type_sync_el0_64, "SYNC_EL0_64")
    ∷ (exception_type_irq_el0_64, "IRQ_EL0_64")
    ∷ (exception_type_fiq_el0_64, "FIQ_EL0_64")
    ∷ (exception_type_serror_el0_64, "SERROR_EL0_64")
    ∷ (exception_type_sync_el0_32, "SYNC_EL0_32")
    ∷ (exception_type_irq_el0_32, "IRQ_EL0_32")
    ∷ (exception_type_fiq_el0_32, "FIQ_EL0_32")
    ∷ (exception_type_serror_el0_32, "SERROR_EL0_32")
    ∷ []

pub exception_type_string : ℕ → String
unfolding name_in
exception_type_string kind_of_exception =
    name_in type_names "UNKNOWN_EXCEPTION_TYPE" kind_of_exception

abbrev class_names : List (ℕ × String)
class_names =
    (0x00, "EXCEPTION_CLASS_UNKNOWN")
    ∷ (0x01, "EXCEPTION_CLASS_TRAPPED_WFI_WFE")
    ∷ (0x03, "EXCEPTION_CLASS_TRAPPED_MCR_MRC_CP15")
    ∷ (0x04, "EXCEPTION_CLASS_TRAPPED_MCRR_MRRC_CP15")
    ∷ (0x05, "EXCEPTION_CLASS_TRAPPED_MCR_MRC_CP14")
    ∷ (0x06, "EXCEPTION_CLASS_TRAPPED_LDC_STC")
    ∷ (0x07, "EXCEPTION_CLASS_TRAPPED_SIMD_FP_SVE_SME")
    ∷ (0x09, "EXCEPTION_CLASS_TRAPPED_POINTER_AUTHENTICATION")
    ∷ (0x0A, "EXCEPTION_CLASS_TRAPPED_OTHER_INSTRUCTION")
    ∷ (0x0C, "EXCEPTION_CLASS_TRAPPED_MRRC_CP14")
    ∷ (0x0D, "EXCEPTION_CLASS_BRANCH_TARGET")
    ∷ (0x0E, "EXCEPTION_CLASS_ILLEGAL_EXECUTION_STATE")
    ∷ (0x11, "EXCEPTION_CLASS_SVC_AARCH32")
    ∷ (0x14, "EXCEPTION_CLASS_TRAPPED_SYSREG128_SYSINSTR128")
    ∷ (0x15, "EXCEPTION_CLASS_SVC_AARCH64")
    ∷ (0x18, "EXCEPTION_CLASS_TRAPPED_MSR_MRS_SYSTEM_AARCH64")
    ∷ (0x19, "EXCEPTION_CLASS_TRAPPED_SVE")
    ∷ (0x1A, "EXCEPTION_CLASS_TRAPPED_ERET_ERETAA_ERETAB")
    ∷ (0x1C, "EXCEPTION_CLASS_PAC_FAIL")
    ∷ (0x1D, "EXCEPTION_CLASS_TRAPPED_SME")
    ∷ (0x20, "EXCEPTION_CLASS_INSTRUCTION_ABORT_LOWER_EL")
    ∷ (0x21, "EXCEPTION_CLASS_INSTRUCTION_ABORT_SAME_EL")
    ∷ (0x22, "EXCEPTION_CLASS_PC_ALIGNMENT_FAULT")
    ∷ (0x24, "EXCEPTION_CLASS_DATA_ABORT_LOWER_EL")
    ∷ (0x25, "EXCEPTION_CLASS_DATA_ABORT_SAME_EL")
    ∷ (0x26, "EXCEPTION_CLASS_SP_ALIGNMENT_FAULT")
    ∷ (0x27, "EXCEPTION_CLASS_MEMORY_OPERATION")
    ∷ (0x28, "EXCEPTION_CLASS_TRAPPED_FP_EXCEPTION_AARCH32")
    ∷ (0x2C, "EXCEPTION_CLASS_TRAPPED_FP_EXCEPTION_AARCH64")
    ∷ (0x2D, "EXCEPTION_CLASS_GCS")
    ∷ (0x2F, "EXCEPTION_CLASS_SERROR")
    ∷ (0x30, "EXCEPTION_CLASS_BREAKPOINT_LOWER_EL")
    ∷ (0x31, "EXCEPTION_CLASS_BREAKPOINT_SAME_EL")
    ∷ (0x32, "EXCEPTION_CLASS_SOFTWARE_STEP_LOWER_EL")
    ∷ (0x33, "EXCEPTION_CLASS_SOFTWARE_STEP_SAME_EL")
    ∷ (0x34, "EXCEPTION_CLASS_WATCHPOINT_LOWER_EL")
    ∷ (0x35, "EXCEPTION_CLASS_WATCHPOINT_SAME_EL")
    ∷ (0x38, "EXCEPTION_CLASS_BKPT_AARCH32")
    ∷ (0x3C, "EXCEPTION_CLASS_BRK_AARCH64")
    ∷ (0x3D, "EXCEPTION_CLASS_PROFILING")
    ∷ []

pub exception_class_to_string : ℕ → String
unfolding name_in
exception_class_to_string exception_class =
    name_in class_names "EXCEPTION_CLASS_<unknown>" exception_class
