-- ===== src/Minimal/Virt.antt =====
-- minimal/virt/kernel.c: the bytes are written at once, on the assumption that the UART takes them.
use charcoalos.Strings.Compare.{IsText, terminated}
use charcoalos.Uart.Device.{Line, Uart}
use charcoalos.Console.{literal}
use charcoalos.Prelude.{
  ℕ, ◌≡◌, refl, sym, ap, ◌∙◌, false, Option, none, some, [], ◌∷◌, ◌++◌, append-nil, append_assoc,
  arith, ◌==◌, if◌then◌else◌, All, u8, Bytes, IsByte,
}

module _ (d : Uart) where
  open d use {State, write_data}

  pub uart_putchar : ℕ → State → State
  uart_putchar character s = write_data (u8 character) s

  -- `none`: it reads outside of the text.
  pub uart_print : Bytes → State → Option State
  unfolding uart_putchar
  uart_print [] s = none
  uart_print (c ∷ text) s = if c == 0 then some s else uart_print text (uart_putchar c s)

  pub kmain : State → Option State
  unfolding uart_print
  kmain s = uart_print (literal "Hello, world!\r\n") s

-- On a UART that takes each byte at once, the kernel of minimal/virt sends a text of bytes as a whole
-- and unchanged, and returns.
pub uart_print-sent :
    (d : Uart) (l : Line d) (text rest : Bytes) (s : d.State)
    → ((s : d.State) (c : ℕ) → l.sent (d.write_data c s) ≡ l.sent s ++ (u8 c ∷ []))
    → IsText text
    → All IsByte text
    → (s' : d.State) × (uart_print d (terminated text rest) s ≡ some s')
      × (l.sent s' ≡ l.sent s ++ text)
unfolding uart_print
uart_print-sent d l [] rest s takes t bytes = (s, refl, sym (append-nil (l.sent s)))
uart_print-sent d l (c ∷ text) rest s takes t bytes =
    let more : c == 0 ≡ false = ground arith in
    let (s', e, h) = uart_print-sent d l text rest (d.write_data (u8 c) s) takes t.1 bytes.1 in
    let small : u8 (u8 c) ≡ c = omega arith in
    (
      s',
      rw more e,
      h
          ∙ ap (λ (x : Bytes). x ++ text) (takes s (u8 c))
          ∙ append_assoc (l.sent s) (u8 (u8 c) ∷ []) text
          ∙ ap (λ (x : ℕ). l.sent s ++ (x ∷ text)) small,
    )
