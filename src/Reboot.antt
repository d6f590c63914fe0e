-- ===== src/Reboot.antt =====
-- platform/*/Reboot.c, kernel/Panic/Restart.c, and what the exception vectors of
-- arch/arm64/ExceptionVectors.s do with the action that `handle_exception` returns.
pub mod Settles
pub mod Watchdog
use charcoalos.Exception.Types.{
  exception_action_panic, exception_action_resume, exception_action_restart,
}
use charcoalos.Interrupt.{Platform, rpi, virt}
use charcoalos.Panic.{halt, kernel_halt}
use charcoalos.Exception.{handle_exception}
use charcoalos.Machine.{
  ◌>>=◌, ◌>>◌, gets, record_effect, stop, Kernel, store32, restarting, pure, hypervisor_reset,
}
use charcoalos.Prelude.{ℕ, ◌+◌, bit_and, bit_or, List}

abbrev pub mmio_base : Platform → ℕ
mmio_base rpi = 0xFE000000
mmio_base virt = 0x08000000

abbrev pub uart0_base : Platform → ℕ
uart0_base rpi = mmio_base rpi + 0x201000
uart0_base virt = mmio_base virt + 0x01000000

abbrev wdog_base : ℕ
wdog_base = mmio_base rpi + 0x00100000

abbrev pub wdog_pm_rstc : ℕ
wdog_pm_rstc = wdog_base + 0x1c

abbrev pub wdog_pm_wdog : ℕ
wdog_pm_wdog = wdog_base + 0x24

abbrev wdog_pm_password : ℕ
wdog_pm_password = 0x5a000000

abbrev wdog_pm_rstc_full_reset : ℕ
wdog_pm_rstc_full_reset = 0x20

abbrev wdog_pm_rstc_wrcfg_clr : ℕ
wdog_pm_rstc_wrcfg_clr = 0xffffffcf

-- The watchdog's counter and its request for a full reset, with ten ticks to wait.
start_watchdog : Kernel (Unit {0})
start_watchdog = do
  record_effect (store32 wdog_pm_wdog (bit_or wdog_pm_password 10))
  value ← gets (λ m. m.mmio wdog_pm_rstc)
  record_effect (
      store32 wdog_pm_rstc (
        bit_or (bit_and value wdog_pm_rstc_wrcfg_clr)
          (bit_or wdog_pm_password wdog_pm_rstc_full_reset)))

-- PSCI's SYSTEM_RESET, by a call of the hypervisor that does not come back.
reset_system : {A : Type 0} → Kernel A
reset_system = do record_effect hypervisor_reset; stop restarting

pub platform_reboot : {A : Type 0} → Platform → Kernel A
unfolding start_watchdog reset_system
platform_reboot rpi = do start_watchdog; kernel_halt
platform_reboot virt = reset_system

pub kernel_restart : {A : Type 0} → Platform → Kernel A
kernel_restart p = platform_reboot p

-- The vector of an exception: the registers are saved, the handler called, its action taken.
unfoldable pub take_exception : Platform → List ℕ → ℕ → Kernel (Unit {0})
take_exception p saved_registers kind = do
  action ← handle_exception p saved_registers kind
  elim action [
    | exception_action_resume ↦ pure tt
    | exception_action_restart ↦ platform_reboot p
    | exception_action_panic ↦ halt
  ]
