-- ===== src/Machine.antt =====
-- The machine that the kernel runs on, and kernel code as state passing that may stop. The console
-- devices are byte sequences: `output` was given to the UART, `transmitted` is known to have left it,
-- since a flush has come back. Memory need not answer at every address; a device register is read
-- through `mmio`, a system register through `sysreg`, both chosen by the hardware, and every write to
-- one is logged.
pub mod Ends
pub mod Settles
use charcoalos.Endian.Decode.{big_endian}
use charcoalos.Prelude.{ℕ, ◌≡◌, Bool, Option, none, some, List, [], ◌∷◌, ◌++◌, append_assoc, Bytes}

pub data SystemRegister : Type 0 where
  esr_el1 elr_el1 spsr_el1 far_el1 : SystemRegister
  cntfrq_el0 cntp_ctl_el0 cntp_tval_el0 : SystemRegister
  current_el mpidr_el1 sctlr_el1 sp daifset daifclr : SystemRegister

-- What the processor did to the devices around it.
pub data Effect : Type 0 where
  store8 store32 : ℕ → ℕ → Effect
  msr : SystemRegister → ℕ → Effect
  barriers hypervisor_reset : Effect

-- What `kernel_run` calls: the shell, or a function that the caller has set.
pub data Client : Type 0 where
  run_default_foreground_client : Client
  custom_client : ℕ → Client

pub record Machine : Type 0 where
  pub output : Bytes
  pub transmitted : Bytes
  pub input : Bytes
  pub ticks_since_boot : ℕ
  pub exception_in_progress : ℕ
  pub foreground_client : Option Client
  pub memory : ℕ → Option ℕ
  pub mmio : ℕ → ℕ
  pub big_endian : Bool
  pub sysreg : SystemRegister → ℕ
  pub effects : List Effect

-- `fault`: the code reads outside of an object, `overrun`: it writes outside of one; C leaves both
-- undefined. `waiting`: it waits for a byte that has not come. `unfinished`: a loop's fuel ran out.
pub data Stop : Type 0 where
  halted restarting waiting fault overrun unfinished : Stop

pub data Outcome (A : Type 0) : Type 0 where
  returned : A → Outcome A
  stopped : Stop → Outcome A

abbrev pub Kernel : Type 0 → Type 0
Kernel A = Machine → Outcome A × Machine

abbrev pub pure : {A : Type 0} → A → Kernel A
pure a m = (returned a, m)

abbrev pub stop : {A : Type 0} → Stop → Kernel A
stop s m = (stopped s, m)

abbrev pub continue : {A B : Type 0} → Outcome A → (A → Kernel B) → Kernel B
continue (returned a) f m = f a m
continue (stopped s) f m = (stopped s, m)

infixl 5 ◌>>=◌ ◌>>◌
abbrev pub ◌>>=◌ : {A B : Type 0} → Kernel A → (A → Kernel B) → Kernel B
◌>>=◌ k f m = continue (k m).0 f (k m).1

abbrev pub ◌>>◌ : {B : Type 0} → Kernel (Unit {0}) → Kernel B → Kernel B
k >> l = k >>= λ _. l

abbrev pub gets : {A : Type 0} → (Machine → A) → Kernel A
gets f m = (returned (f m), m)

-- A read that fell outside of its object stops the code.
abbrev pub or_fault : {A : Type 0} → Option A → Kernel A
or_fault none m = (stopped fault, m)
or_fault (some a) m = (returned a, m)

abbrev pub record_effect : Effect → Kernel (Unit {0})
record_effect e m = (returned tt, record m { effects = m.effects ++ e ∷ [] })

-- The machine after `bytes` were sent to the console.
abbrev pub emit : Machine → Bytes → Machine
emit m bytes = record m { output = m.output ++ bytes }

pub emit-emit : (m : Machine) (a b : Bytes) → emit (emit m a) b ≡ emit m (a ++ b)
emit-emit m a b = λ i. record m { output = append_assoc m.output a b i }
