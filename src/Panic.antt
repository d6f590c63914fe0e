-- ===== src/Panic.antt =====
-- arch/arm64/Halt.c, kernel/Panic/Panic.c and `kernel_halt` of kernel/Main/Lifecycle.c. None of
-- these returns, so each is of any result type.
pub mod Settles
use charcoalos.Console.Print.{print_literal, shown}
use charcoalos.Console.{literal, console_print, platform_console_tx_flush}
use charcoalos.Prelude.{ap, ◌≡◌, Option, none, some, ◌++◌, Bytes, String}
use charcoalos.Machine.{◌>>◌, Kernel, stopped, stop, emit-emit, Machine, emit, halted}

-- The flush comes first; then the processor sleeps for ever.
unfoldable pub halt : {A : Type 0} → Kernel A
halt = do platform_console_tx_flush; stop halted

unfoldable pub kernel_halt : {A : Type 0} → Kernel A
unfolding halt
kernel_halt = halt

unfoldable pub kernel_panic : {A : Type 0} → Option Bytes → Kernel A
unfolding kernel_halt
kernel_panic none = kernel_halt
kernel_panic (some panic_message) = do
  console_print panic_message
  console_print (literal "\n\n")
  kernel_halt

-- A panic with a string constant.
unfoldable pub panic : {A : Type 0} → String → Kernel A
unfolding kernel_panic
panic message = kernel_panic (some (literal message))

-- Where the processor has halted, everything that was printed has left the UART.
abbrev pub drained : Machine → Machine
drained m = record m { transmitted = m.output }

-- The message and an empty line on the console, the processor halted.
pub panic_lem :
    {A : Type 0} (s : String) (m : Machine)
    → panic {A = A} s m ≡ (stopped halted, drained (emit m (shown s ++ shown "\n\n")))
unfolding panic platform_console_tx_flush
panic_lem s m =
    simp print_literal
      (ap (λ (n : Machine). (stopped halted, drained n)) (emit-emit m (shown s) (shown "\n\n")))
