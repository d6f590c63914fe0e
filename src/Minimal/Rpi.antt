-- ===== src/Minimal/Rpi.antt =====
-- minimal/rpi/kernel.c.
use charcoalos.Console.Print.{with_returns}
use charcoalos.Strings.Compare.{terminated, IsText}
use charcoalos.Uart.Waits.{wait_while-Left}
use charcoalos.Uart.Device.{flag, Transmits, Uart, Line}
use charcoalos.Uart.{wait_while}
use charcoalos.Console.{literal}
use charcoalos.Prelude.{
  ℕ, ◌^◌, ◌<◌, ◌≡◌, refl, sym, ap, ap₂, ◌∙◌, inl, inr, false, Option, none, some, [], ◌∷◌, ◌++◌,
  append-nil, append_assoc, arith, ◌==◌, if◌then◌else◌, Bool-cases, All, u8, Bytes, IsByte,
}

module _ (d : Uart) where
  open d use {State, read_flags, write_data}

  pub uart_putchar : ℕ → ℕ → State → Option State
  uart_putchar fuel character s = elim (wait_while d read_flags (flag (2 ^ 5)) fuel s) [
    | none ↦ none
    | some s' ↦ some (write_data character s')
  ]

  -- `none`: it waits after so many reads of the flags for a byte, or it reads outside of the text.
  pub uart_print : ℕ → Bytes → State → Option State
  uart_print fuel [] s = none
  uart_print fuel (character ∷ text) s =
      let returned = if character == b'\n' then uart_putchar fuel b'\r' s else some s in
      if character == 0 then some s else elim returned [
        | none ↦ none
        | some s' ↦ elim (uart_putchar fuel character s') [
          | none ↦ none
          | some s'' ↦ uart_print fuel text s''
        ]
      ]

  -- The state in which the processor is put to sleep for ever.
  pub kmain : ℕ → State → Option State
  unfolding uart_print
  kmain fuel s = uart_print fuel (literal "Hello, world!\n") s

module _ (d : Uart) (l : Line d) (tx : Transmits d l) where
  open d use {State, read_flags, write_data}
  open l use {sent, backlog, patience}

  uart_putchar-sent :
      (fuel c : ℕ) (s : State)
      → patience < fuel
      → IsByte c
      → (s' : State) × (uart_putchar d fuel c s ≡ some s') × (sent s' ≡ sent s ++ (c ∷ []))
  unfolding uart_putchar
  uart_putchar-sent fuel c s enough byte =
      let (t, e, free, kept) =
        wait_while-Left d (flag (2 ^ 5)) (λ s t. sent t ≡ sent s) (λ s. refl)
          (λ s t kept. kept ∙ tx.read_keeps s) (λ s. Unit {0}) backlog
          (λ s _ full. (tt, tx.full_drains s full)) fuel s tt
          (omega (arith, tx.backlog-le-patience s)) in
      let small : u8 c ≡ c = omega arith in
      (
        write_data c (read_flags t).1,
        rw (e, uart_putchar) refl,
        tx.write_sends t c free ∙ ap₂ (λ (x : Bytes) (b : ℕ). x ++ (b ∷ [])) kept small,
      )

  sent_next :
      (before more : Bytes) (c : ℕ) (a b : State)
      → sent a ≡ before ++ (c ∷ [])
      → sent b ≡ sent a ++ more
      → sent b ≡ before ++ (c ∷ more)
  sent_next before more c a b h h' =
      h' ∙ ap (λ (x : Bytes). x ++ more) h ∙ append_assoc before (c ∷ []) more

  -- A text of bytes with its terminator is sent by the kernel of minimal/rpi as a whole, each newline
  -- behind a carriage return, and the function returns: it waits for the UART each time, within the
  -- reads that a PL011 UART needs at most.
  pub uart_print-with_returns :
      (fuel : ℕ) (text rest : Bytes) (s : State)
      → patience < fuel
      → IsText text
      → All IsByte text
      → (s' : State) × (uart_print d fuel (terminated text rest) s ≡ some s')
        × (sent s' ≡ sent s ++ with_returns text)
  unfolding uart_print
  uart_print-with_returns fuel [] rest s enough t bytes = (s, refl, sym (append-nil (sent s)))
  uart_print-with_returns fuel (c ∷ text) rest s enough t bytes =
      let more : c == 0 ≡ false = ground arith in
      elim (Bool-cases (c == b'\n')) [
        | inl newline ↦
            let (s0, e0, h0) = uart_putchar-sent fuel b'\r' s enough (omega arith) in
            let (s1, e1, h1) = uart_putchar-sent fuel c s0 enough bytes.0 in
            let (s2, e2, h2) = uart_print-with_returns fuel text rest s1 enough t.1 bytes.1 in
            (
              s2,
              rw (more, newline) (rw (e0, uart_print) (rw (e1, uart_print) e2)),
              rw newline (
                  sent_next _ _ _ _ _ h1 h2
                  ∙ ap (λ (x : Bytes). x ++ (c ∷ with_returns text)) h0
                  ∙ append_assoc (sent s) (b'\r' ∷ []) (c ∷ with_returns text)),
            )
        | inr other ↦
            let (s', e, h) = uart_putchar-sent fuel c s enough bytes.0 in
            let (s'', e', h') = uart_print-with_returns fuel text rest s' enough t.1 bytes.1 in
            (s'', rw (more, other) (rw (e, uart_print) e'), rw other (sent_next _ _ _ _ _ h h'))
      ]
