-- ===== src/Reboot/Watchdog.antt =====
-- platform/rpi/Reboot.c: what the restart of the Raspberry Pi writes to the watchdog.
use charcoalos.Reboot.{kernel_restart, platform_reboot, start_watchdog, wdog_pm_rstc, wdog_pm_wdog}
use charcoalos.Interrupt.{rpi}
use charcoalos.Panic.{kernel_halt, halt}
use charcoalos.Console.{platform_console_tx_flush}
use charcoalos.Machine.{Machine, Effect, halted, stopped, store32}
use charcoalos.Prelude.{
  ℕ, ◌+◌, ◌-◌, ◌*◌, ◌^◌, ◌<◌, ◌≡◌, ap, ap₂, ◌∙◌, [], ◌∷◌, ◌++◌, append_assoc, List, arith, bit_and,
  bit_and_low, bit_and_parts, bit_or, bit_or-zero, bit_or_parts, zero-bit_or,
}

-- The register of the reset controller from its fields: what the watchdog does is in bits 4 and 5.
abbrev pub rstc_of : ℕ → ℕ → ℕ → ℕ
rstc_of above action below = above * 2 ^ 6 + (action * 2 ^ 4 + below)

cleared :
    (above action below : ℕ)
    → above < 2 ^ 18
    → action < 4
    → below < 2 ^ 4
    → bit_and (rstc_of above action below) 0xffffffcf ≡ above * 2 ^ 6 + below
cleared above action below high two low =
    let whole : above ≡ 0 * 2 ^ 26 + above = omega arith in
    bit_and_parts 6 above (action * 2 ^ 4 + below) (2 ^ 26 - 1) 15 (omega arith) (omega arith)
    ∙ ap₂ (λ (x y : ℕ). x * 2 ^ 6 + y)
        (ap (λ (x : ℕ). bit_and x (2 ^ 26 - 1)) whole ∙ bit_and_low 26 0 above (omega arith))
        (bit_and_low 4 action below low)

-- `|` with bits behind the number's.
or_above : (k lo hi : ℕ) → lo < 2 ^ k → bit_or (0 * 2 ^ k + lo) (hi * 2 ^ k + 0) ≡ hi * 2 ^ k + lo
or_above k lo hi low =
    bit_or_parts k 0 lo hi 0 low (omega (arith, low))
    ∙ ap₂ (λ (x y : ℕ). x * 2 ^ k + y) (zero-bit_or hi) (bit_or-zero lo)

requested :
    (above below : ℕ)
    → above < 2 ^ 18
    → below < 2 ^ 4
    → bit_or (above * 2 ^ 6 + below) 0x5a000020 ≡ 0x5a000000 + rstc_of above 2 below
requested above below high low =
    let whole : above ≡ 0 * 2 ^ 18 + above = omega arith in
    let whole' : below ≡ 0 * 2 ^ 4 + below = omega arith in
    bit_or_parts 6 above below (0x5a * 2 ^ 18) 0x20 (omega arith) (omega arith)
    ∙ ap₂ (λ (x y : ℕ). x * 2 ^ 6 + y)
        (ap (λ (x : ℕ). bit_or x (0x5a * 2 ^ 18)) whole ∙ or_above 18 above 0x5a high)
        (ap (λ (x : ℕ). bit_or x 0x20) whole' ∙ or_above 4 below 2 low)
    ∙ omega arith

-- The restart of the Raspberry Pi gives the watchdog ten ticks, then asks the reset controller for a
-- full reset, both behind the password, waits for the console to be sent, and halts. Where the reset
-- controller's register reads with zeros in place of the password, its fields but the one for the
-- watchdog's action are written as they were.
pub kernel_restart-rstc_of :
    {A : Type 0} (m : Machine) (above action below : ℕ)
    → m.mmio wdog_pm_rstc ≡ rstc_of above action below
    → above < 2 ^ 18
    → action < 4
    → below < 2 ^ 4
    → kernel_restart {A = A} rpi m ≡ (
      stopped halted,
      record m {
        transmitted = m.output;
        effects =
            m.effects
            ++ (store32 wdog_pm_wdog (0x5a000000 + 10)
                ∷ store32 wdog_pm_rstc (0x5a000000 + rstc_of above 2 below)
                ∷ []);
      },
    )
unfolding kernel_restart platform_reboot start_watchdog kernel_halt halt platform_console_tx_flush
kernel_restart-rstc_of m above action below reads high two low =
    let written : bit_or (bit_and (m.mmio wdog_pm_rstc) 0xffffffcf) 0x5a000020
        ≡ 0x5a000000 + rstc_of above 2 below =
      ap (λ (x : ℕ). bit_or (bit_and x 0xffffffcf) 0x5a000020) reads
      ∙ ap (λ (x : ℕ). bit_or x 0x5a000020) (cleared above action below high two low)
      ∙ requested above below high low in
    rw written (
      ap (λ (es : List Effect). (stopped halted, record m { transmitted = m.output; effects = es }))
        (append_assoc m.effects (store32 wdog_pm_wdog (0x5a000000 + 10) ∷ [])
          (store32 wdog_pm_rstc (0x5a000000 + rstc_of above 2 below) ∷ [])))
