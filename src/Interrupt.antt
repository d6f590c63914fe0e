-- ===== src/Interrupt.antt =====
-- arch/arm64/Interrupt.c, and platform/*/InterruptMap.h.
pub mod Ticks
pub mod Start
pub mod Armed
pub mod Settles
use charcoalos.Console.{console_print, literal, print_value}
use charcoalos.Uptime.{increment_uptime_by_one_tick, interrupt_frequency_in_hz}
use charcoalos.Machine.{
  ◌>>=◌, ◌>>◌, barriers, store32, cntfrq_el0, Kernel, msr, pure, cntp_tval_el0, store8,
  cntp_ctl_el0, record_effect, gets, daifclr,
}
use charcoalos.Prelude.{ℕ, ◌+◌, ◌-◌, ◌/◌, ◌^◌, bit_and, bit_or, Bool, ◌==◌, if◌then◌else◌}

-- The two builds.
pub data Platform : Type 0 where
  rpi virt : Platform

abbrev pub gicd_base : Platform → ℕ
gicd_base rpi = 0xFF841000
gicd_base virt = 0x08000000

abbrev pub gicc_base : Platform → ℕ
gicc_base rpi = 0xFF842000
gicc_base virt = 0x08010000

abbrev pub gicd_ctlr : Platform → ℕ
gicd_ctlr p = gicd_base p

abbrev pub gicd_typer : Platform → ℕ
gicd_typer p = gicd_base p + 0x004

abbrev pub gicd_iidr : Platform → ℕ
gicd_iidr p = gicd_base p + 0x008

abbrev pub gicd_igroupr0 : Platform → ℕ
gicd_igroupr0 p = gicd_base p + 0x080

abbrev pub gicd_isenabler0 : Platform → ℕ
gicd_isenabler0 p = gicd_base p + 0x100

abbrev pub gicd_ipriorityr : Platform → ℕ
gicd_ipriorityr p = gicd_base p + 0x400

abbrev pub gicc_ctlr : Platform → ℕ
gicc_ctlr p = gicc_base p

abbrev pub gicc_pmr : Platform → ℕ
gicc_pmr p = gicc_base p + 0x004

abbrev pub gicc_iar : Platform → ℕ
gicc_iar p = gicc_base p + 0x00C

abbrev pub gicc_eoir : Platform → ℕ
gicc_eoir p = gicc_base p + 0x010

abbrev pub gicc_iidr : Platform → ℕ
gicc_iidr p = gicc_base p + 0x0FC

abbrev pub timer_interrupt_id : ℕ
timer_interrupt_id = 0x1e

pub read_timer_frequency_in_hz : Kernel ℕ
read_timer_frequency_in_hz = gets λ m. m.sysreg cntfrq_el0

load : ℕ → Kernel ℕ
load address = gets λ m. m.mmio address

-- `*(volatile uint32_t *)address |= bits`.
set_bits : ℕ → ℕ → Kernel (Unit {0})
set_bits address bits m = record_effect (store32 address (bit_or (m.mmio address) bits)) m

-- The group that the timer's interrupt is in, and its forwarding.
enable_group : Platform → Kernel (Unit {0})
unfolding set_bits
enable_group rpi = do
  set_bits (gicd_igroupr0 rpi) (2 ^ timer_interrupt_id)
  set_bits (gicd_ctlr rpi) 0x2
  set_bits (gicc_ctlr rpi) 0x2
enable_group virt = do set_bits (gicd_ctlr virt) 0x1; set_bits (gicc_ctlr virt) 0x1

-- The mask `~0x3` is on the 64 bits of the register.
pub initialize_timer : Platform → Kernel (Unit {0})
unfolding enable_group set_bits read_timer_frequency_in_hz
initialize_timer p = do
  freq_in_hz ← read_timer_frequency_in_hz
  record_effect (msr cntp_tval_el0 (freq_in_hz / interrupt_frequency_in_hz))
  control ← gets (λ m. m.sysreg cntp_ctl_el0)
  record_effect (msr cntp_ctl_el0 (bit_or (bit_and control (2 ^ 64 - 1 - 0x3)) 0x1))
  set_bits (gicd_isenabler0 p) (2 ^ timer_interrupt_id)
  record_effect (store8 (gicd_ipriorityr p + timer_interrupt_id) 0x80)
  record_effect (store32 (gicc_pmr p) 0xff)
  enable_group p
  record_effect barriers
  record_effect (msr daifclr 0b0010)

-- The tick is counted, and the timer set to the next one.
timer_tick : Kernel (Unit {0})
unfolding read_timer_frequency_in_hz
timer_tick = do
  increment_uptime_by_one_tick
  freq_in_hz ← read_timer_frequency_in_hz
  record_effect (msr cntp_tval_el0 (freq_in_hz / interrupt_frequency_in_hz))

-- The interrupt is acknowledged whether it was handled or not.
pub handle_interrupt_exception : Platform → Kernel Bool
unfolding timer_tick load
handle_interrupt_exception p = do
  iar ← load (gicc_iar p)
  let handled = bit_and iar 0x3ff == timer_interrupt_id
  if handled then timer_tick else pure tt
  record_effect (store32 (gicc_eoir p) iar)
  pure handled

pub print_timer_diagnostics : Platform → Kernel (Unit {0})
unfolding load
print_timer_diagnostics p = do
  gicd_typer_value ← load (gicd_typer p)
  gicd_iidr_value ← load (gicd_iidr p)
  gicc_iidr_value ← load (gicc_iidr p)
  console_print (literal "Timer diagnostics\n  GICD_TYPER: 0x")
  print_value 4 gicd_typer_value
  console_print (literal "\n  GICD_IIDR:  0x")
  print_value 4 gicd_iidr_value
  console_print (literal "\n  GICC_IIDR:  0x")
  print_value 4 gicc_iidr_value
  console_print (literal "\n")
