-- ===== src/Panic/Settles.antt =====
-- arch/arm64/Halt.c: the processor halts behind a flush.
use charcoalos.Panic.{halt}
use charcoalos.Console.{platform_console_tx_flush}
use charcoalos.Machine.Settles.{Settles, SettlesOn}
use charcoalos.Prelude.{refl}

pub Settles-halt : (A : Type 0) → Settles (halt {A = A})
unfolding SettlesOn halt platform_console_tx_flush
Settles-halt A m = refl
