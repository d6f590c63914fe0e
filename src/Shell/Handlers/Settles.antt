-- ===== src/Shell/Handlers/Settles.antt =====
-- kernel/Console/Shell.c: the handlers stop properly and leave the input alone.
use charcoalos.Exception.Types.{exception_type_sync_el1_spx}
use charcoalos.Reboot.Settles.{Settles-kernel_panic, Settles-kernel_restart, Settles-take_exception}
use charcoalos.Machine.Ends.{Anything}
use mathlib.Core.Path.{subst}
use charcoalos.Machine.{Machine}
use charcoalos.Interrupt.{Platform}
use charcoalos.Uptime.{uptime}
use charcoalos.Console.Settles.{printing}
use charcoalos.Shell.Handlers.{
  print_help, add_handler, argument, hex_argument, memread_loop, reboot_handler, panic_argument,
  panic_handler, memread_handler, uptime_handler, help_handler, svc, trapsvc_handler, Processor,
}
use charcoalos.Machine.Settles.{
  Settles-pure, Settles-or_fault, Settles-bind, Settles, Settled, SettlesOn,
}
use charcoalos.Console.{console_uint64_from_hex}
use charcoalos.Prelude.{ℕ, zero, suc, ◌+◌, ◌≡◌, List, [], ◌∷◌, Bytes, String}

Settles-hex_argument : (argv : List Bytes) (i : ℕ) → Settles (hex_argument argv i)
unfolding hex_argument argument
Settles-hex_argument argv i =
    Settles-bind _ _ (Settles-or_fault _)
      λ digits. Settles-or_fault (console_uint64_from_hex digits)

Settles-memread_loop : (left i : ℕ) (argv : List Bytes) → Settles (memread_loop left i argv)
unfolding memread_loop
Settles-memread_loop zero i argv = Settles-pure tt
Settles-memread_loop (suc left) i argv =
    let rest = Settles-memread_loop left (i + 1) argv in
    Settles-bind _ _ (Settles-hex_argument argv i) λ address. search (printing, rest) depth 8

Settles-print_help : (texts : List (String × String)) → Settles (print_help texts)
unfolding print_help
Settles-print_help [] = Settles-pure tt
Settles-print_help ((name, help_text) ∷ others) =
    let rest = Settles-print_help others in search (printing, rest) depth 8

-- Taking an `svc` reads nothing from the console.
abbrev pub KeepsInput : Processor → Type 0
KeepsInput cpu = (m : Machine) → (cpu.enters_exception m).input ≡ m.input

Settles-svc :
    (p : Platform) (cpu : Processor) (number : ℕ) → KeepsInput cpu → Settles (svc p cpu number)
unfolding svc SettlesOn
Settles-svc p cpu number keeps m =
    subst (λ (input : Bytes). Settled Anything input (svc p cpu number m)) (keeps m)
      (Settles-take_exception p (cpu.saved_registers number) exception_type_sync_el1_spx
        (cpu.enters_exception m))

module _ (argc : ℕ) (argv : List Bytes) where
  pub Settles-add_handler : Settles (add_handler argc argv)
  unfolding add_handler
  Settles-add_handler = search (printing, Settles-hex_argument) depth 12

  pub Settles-help_handler : Settles (help_handler argc argv)
  unfolding help_handler
  Settles-help_handler = search (printing, Settles-print_help) depth 12

  pub Settles-memread_handler : Settles (memread_handler argc argv)
  unfolding memread_handler
  Settles-memread_handler = search (printing, Settles-memread_loop) depth 12

  pub Settles-uptime_handler : Settles (uptime_handler argc argv)
  unfolding uptime_handler uptime
  Settles-uptime_handler = search printing depth 12

  pub Settles-panic_handler : Settles (panic_handler argc argv)
  unfolding panic_handler panic_argument argument
  Settles-panic_handler = search (printing, Settles-kernel_panic ℕ) depth 12

  pub Settles-reboot_handler : (p : Platform) → Settles (reboot_handler p argc argv)
  unfolding reboot_handler
  Settles-reboot_handler p = search (printing, Settles-kernel_restart) depth 12

  pub Settles-trapsvc_handler :
      (p : Platform) (cpu : Processor) → KeepsInput cpu → Settles (trapsvc_handler p cpu argc argv)
  unfolding trapsvc_handler
  Settles-trapsvc_handler p cpu keeps =
      let call = λ (number : ℕ). Settles-svc p cpu number keeps in
      search (printing, Settles-hex_argument, call) depth 12
