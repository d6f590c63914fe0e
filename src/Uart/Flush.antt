-- ===== src/Uart/Flush.antt =====
-- platform/*/IO.c, `platform_console_tx_flush`.
use charcoalos.Uart.Waits.{wait_while-Left}
use charcoalos.Uart.Device.{flag, Line, Uart, Transmits}
use charcoalos.Uart.{platform_console_tx_flush, uart_fr_txfe, tx_flush, uart_fr_busy}
use charcoalos.Interrupt.{Platform, virt, rpi}
use charcoalos.Prelude.{ℕ, ◌<◌, ◌≡◌, refl, ◌∙◌, Bool, true, false, not, some, arith}

not-true : (b : Bool) → not b ≡ true → b ≡ false
not-true true h = cc
not-true false h = refl

not-false : (b : Bool) → not b ≡ false → b ≡ true
not-false true h = refl
not-false false h = cc

module _ (d : Uart) (l : Line d) (tx : Transmits d l) where
  open d use {State, read_flags}
  open l use {sent, transmitted, backlog, patience}

  Keep : State → State → Type 0
  Keep s t = sent t ≡ sent s

  tx_flush-transmitted :
      (fuel : ℕ) (s : State)
      → patience < fuel
      → (s' : State) × (tx_flush d read_flags fuel s ≡ some s')
        × (transmitted s' ≡ sent s)
        × (sent s' ≡ sent s)
  unfolding tx_flush Keep
  tx_flush-transmitted fuel s enough =
      let wait = λ (busy : ℕ → Bool).
        wait_while-Left d busy Keep (λ s. refl) (λ s t kept. kept ∙ tx.read_keeps s) (λ s. Unit {0})
          backlog in
      let (t, e, empty, kept) =
        wait (λ flags. not (flag uart_fr_txfe flags))
          (λ s _ full.
            (tt, tx.nonempty_drains s (not-true (flag uart_fr_txfe (read_flags s).0) full)))
          fuel s tt (omega (arith, tx.backlog-le-patience s)) in
      let (u, e', idle, kept') =
        wait (flag uart_fr_busy) (λ s _ busy. (tt, tx.busy_drains s busy)) fuel (read_flags t).1 tt
          (omega (arith, tx.backlog-le-patience (read_flags t).1)) in
      let all_sent : sent (read_flags u).1 ≡ sent s =
        tx.read_keeps u ∙ kept' ∙ tx.read_keeps t ∙ kept in
      ((read_flags u).1, rw (e, tx_flush) e', tx.idle_transmitted u idle ∙ all_sent, all_sent)

  -- On either platform, the flush of a PL011 UART comes to an end, within the reads of the flags that
  -- the UART needs at most, and all bytes that were taken to be sent have then left; none is added.
  pub platform_console_tx_flush-transmitted :
      (p : Platform) (fuel : ℕ) (s : State)
      → patience < fuel
      → (s' : State) × (platform_console_tx_flush d p fuel s ≡ some s')
        × (transmitted s' ≡ sent s)
        × (sent s' ≡ sent s)
  unfolding platform_console_tx_flush
  platform_console_tx_flush-transmitted rpi fuel s enough = tx_flush-transmitted fuel s enough
  platform_console_tx_flush-transmitted virt fuel s enough = tx_flush-transmitted fuel s enough
