-- ===== src/Shell/Handlers/Panics.antt =====
-- kernel/Console/Shell.c, `panic_handler`, with the panic and the halt that it calls.
use charcoalos.Shell.Handlers.Memread.{arguments}
use charcoalos.Shell.Handlers.{argument, panic_argument, panic_handler}
use charcoalos.Panic.{drained, halt, kernel_halt, kernel_panic}
use charcoalos.Console.{platform_console_tx_flush}
use charcoalos.Console.Print.{print_literal, print_terminated, shown, with_returns}
use charcoalos.Strings.Compare.{IsText}
use charcoalos.Machine.{Machine, emit, emit-emit, halted, stopped, Outcome}
use charcoalos.Prelude.{
  ℕ, suc, ◌≡◌, refl, sym, ap, ◌∙◌, true, List, [], ◌∷◌, ◌++◌, append_assoc, arith, ltb, length, All,
  Bytes,
}

-- What is printed for the texts of the arguments, the command's name first: the argument behind the
-- name is the message, or else the name, and without a name there is no message.
abbrev pub panic_text : List (Bytes × Bytes) → Bytes
panic_text [] = shown "Kernel panic\n\n"
panic_text (name ∷ []) = (shown "Kernel panic\n\n" ++ with_returns name.0) ++ shown "\n\n"
panic_text (name ∷ message ∷ others) =
    (shown "Kernel panic\n\n" ++ with_returns message.0) ++ shown "\n\n"

-- The three prints, and the flush behind them.
said :
    (m : Machine) (message : Bytes)
    → Path
        (Outcome ℕ × Machine)
        (
          stopped halted,
          drained (emit (emit (emit m (shown "Kernel panic\n\n")) message) (shown "\n\n")),
        )
        (stopped halted, drained (emit m ((shown "Kernel panic\n\n" ++ message) ++ shown "\n\n")))
said m message =
    ap (λ (n : Machine). (stopped halted, drained n))
      (emit-emit (emit m (shown "Kernel panic\n\n")) message (shown "\n\n")
        ∙ emit-emit m (shown "Kernel panic\n\n") (message ++ shown "\n\n")
        ∙ ap (emit m) (sym (append_assoc (shown "Kernel panic\n\n") message (shown "\n\n"))))

-- With any number of arguments, `panic` prints "Kernel panic" and an empty line, then the argument behind
-- the command's name, or the name itself where it stands alone, and an empty line again, and halts the
-- processor with everything that has ever been printed sent by the UART. Without even a name it halts
-- behind the first line. Nothing else of the machine changes; any texts will do.
pub panic_handler_lem :
    (texts : List (Bytes × Bytes)) (m : Machine)
    → All (λ t. IsText t.0) texts
    → panic_handler (length texts) (arguments texts) m
      ≡ (stopped halted, drained (emit m (panic_text texts)))
unfolding panic_handler panic_argument argument kernel_panic kernel_halt halt
    platform_console_tx_flush
panic_handler_lem [] m h = simp print_literal refl
panic_handler_lem ((name, after) ∷ []) m h =
    simp (print_literal, print_terminated name after _ h.0) (said m (with_returns name))
panic_handler_lem ((name, a) ∷ (message, after) ∷ others) m h =
    let many : ltb 1 (suc (suc (length others))) ≡ true = ground arith in
    rw many
      (simp (print_literal, print_terminated message after _ h.1.0) (said m (with_returns message)))
