-- ===== src/Uart.antt =====
-- platform/rpi/IO.c and platform/virt/IO.c: the loops that wait for the PL011 UART. The two files have
-- the same text but for the function that reads the flags in the flush of QEMU's machine.
pub mod Device
pub mod Waits
pub mod Console
pub mod Flush
use charcoalos.Uart.Device.{Uart, flag}
use charcoalos.Interrupt.{Platform, rpi, virt}
use charcoalos.Prelude.{ℕ, zero, suc, ◌^◌, Bool, not, Option, none, some, if◌then◌else◌, u8}

-- The bits of the flag register.
abbrev pub uart_fr_busy : ℕ
uart_fr_busy = 2 ^ 3

abbrev pub uart_fr_rxfe : ℕ
uart_fr_rxfe = 2 ^ 4

abbrev pub uart_fr_txff : ℕ
uart_fr_txff = 2 ^ 5

abbrev pub uart_fr_txfe : ℕ
uart_fr_txfe = 2 ^ 7

module _ (d : Uart) where
  open d use {State, read_flags, read_data, write_data}

  -- `while (busy(flags)) {}`, with at most so many reads of the flags. `none`: it still waits.
  pub wait_while : (State → ℕ × State) → (ℕ → Bool) → ℕ → State → Option State
  wait_while read busy zero s = none
  wait_while read busy (suc fuel) s =
      let (flags, s') = read s in
      let rest = wait_while read busy fuel s' in if busy flags then rest else some s'

  pub uart_putc : ℕ → ℕ → State → Option State
  uart_putc fuel c s = elim (wait_while read_flags (flag uart_fr_txff) fuel s) [
    | none ↦ none
    | some s' ↦ some (write_data c s')
  ]

  pub uart_getc : ℕ → State → Option (ℕ × State)
  uart_getc fuel s = elim (wait_while read_flags (flag uart_fr_rxfe) fuel s) [
    | none ↦ none
    | some s' ↦ let (value, s'') = read_data s' in some (u8 value, s'')
  ]

  -- A weak function: the unit tests put another one in its place.
  pub platform_uart0_flags : State → ℕ × State
  platform_uart0_flags = read_flags

  tx_flush : (State → ℕ × State) → ℕ → State → Option State
  tx_flush read fuel s = elim (wait_while read (λ flags. not (flag uart_fr_txfe flags)) fuel s) [
    | none ↦ none
    | some s' ↦ wait_while read (flag uart_fr_busy) fuel s'
  ]

  pub platform_console_tx_flush : Platform → ℕ → State → Option State
  unfolding tx_flush platform_uart0_flags
  platform_console_tx_flush rpi fuel s = tx_flush read_flags fuel s
  platform_console_tx_flush virt fuel s = tx_flush platform_uart0_flags fuel s
