-- ===== src/Shell/Handlers.antt =====
-- kernel/Console/Shell.c: the handlers. `argv` is the list of the strings that the tokens point to.
pub mod Add
pub mod Memread
pub mod Panics
pub mod Settles
pub mod Trap
use charcoalos.Exception.Types.{exception_type_sync_el1_spx}
use charcoalos.Console.{console_print, print_value, console_uint64_from_hex, literal}
use charcoalos.Interrupt.{Platform}
use charcoalos.Panic.{kernel_panic}
use charcoalos.Reboot.{take_exception, kernel_restart}
use charcoalos.Uptime.{uptime}
use charcoalos.Machine.{◌>>=◌, ◌>>◌, gets, Machine, or_fault, Kernel, pure}
use charcoalos.Prelude.{
  ℕ, zero, suc, ◌+◌, ◌-◌, Bool, not, Option, none, some, List, [], ◌∷◌, ltb, ◌==◌, if◌then◌else◌,
  get_elem?, u64, Bytes, String,
}

-- What an `svc` instruction does: the registers that the vector saves, the system call's number in
-- `x8` among them, and the system registers that the processor sets.
pub record Processor : Type 0 where
  pub saved_registers : ℕ → List ℕ
  pub enters_exception : Machine → Machine

-- `__clang__`, `__GNUC__`, or neither.
pub data Compiler : Type 0 where
  clang gnu other_compiler : Compiler

-- What the compiler puts in.
pub record Build : Type 0 where
  pub date : Bytes
  pub time : Bytes
  pub compiler : Compiler
  pub hosted : Bool

argument : List Bytes → ℕ → Kernel Bytes
argument argv i = or_fault (get_elem? argv i)

hex_argument : List Bytes → ℕ → Kernel ℕ
unfolding argument
hex_argument argv i = do digits ← argument argv i; or_fault (console_uint64_from_hex digits)

pub add_handler : ℕ → List Bytes → Kernel ℕ
unfolding hex_argument
add_handler argc argv =
    if not (argc == 3)
    then (do console_print (literal "Usage: add 0x1234 0xdbca\n"); pure 1)
    else (do
      a ← hex_argument argv 1
      b ← hex_argument argv 2
      print_value 8 (u64 (a + b))
      console_print (literal "\n")
      pure 0)

-- The names and the help texts of the table.
abbrev pub command_texts : List (String × String)
command_texts =
    ("add", "Add two unsigned hex numbers")
    ∷ ("help", "Display this help message")
    ∷ ("info", "Display information for debugging")
    ∷ ("memread", "Read memory at address")
    ∷ ("panic", "Panic the kernel")
    ∷ ("reboot", "Reboot the system")
    ∷ ("trapsvc", "Trigger a svc exception")
    ∷ ("uptime", "Display milliseconds since last restart")
    ∷ []

print_help : List (String × String) → Kernel (Unit {0})
print_help [] = pure tt
print_help ((name, help_text) ∷ others) = do
  console_print (literal name)
  console_print (literal "\t\t")
  console_print (literal help_text)
  console_print (literal "\n")
  print_help others

pub help_handler : ℕ → List Bytes → Kernel ℕ
unfolding print_help
help_handler argc argv = do
  console_print (literal "CharcoalOS available commands:\n\n")
  print_help command_texts
  console_print (literal "\n")
  pure 0

-- The word at an address is read where memory answers; the load faults where it does not.
-- `for (size_t i = 1; i < argc; ++i)`, with `left` rounds to go.
memread_loop : ℕ → ℕ → List Bytes → Kernel (Unit {0})
memread_loop zero i argv = pure tt
memread_loop (suc left) i argv = do
  address ← hex_argument argv i
  print_value 8 address
  console_print (literal "    ")
  word ← gets (λ m. m.memory address)
  contents ← or_fault word
  print_value 8 contents
  console_print (literal "\n")
  memread_loop left (i + 1) argv

pub memread_handler : ℕ → List Bytes → Kernel ℕ
unfolding memread_loop
memread_handler argc argv = do memread_loop (argc - 1) 1 argv; pure 0

-- `argv` is never null here.
panic_argument : ℕ → List Bytes → Kernel (Option Bytes)
panic_argument argc argv =
    if ltb 1 argc
    then (do message ← argument argv 1; pure (some message))
    else if argc == 1
    then (do message ← argument argv 0; pure (some message))
    else pure none

pub panic_handler : ℕ → List Bytes → Kernel ℕ
unfolding panic_argument
panic_handler argc argv = do
  console_print (literal "Kernel panic\n\n")
  panic_message ← panic_argument argc argv
  kernel_panic panic_message

pub reboot_handler : Platform → ℕ → List Bytes → Kernel ℕ
reboot_handler p argc argv = kernel_restart p

svc : Platform → Processor → ℕ → Kernel (Unit {0})
svc p cpu number m =
    take_exception p (cpu.saved_registers number) exception_type_sync_el1_spx
      (cpu.enters_exception m)

pub trapsvc_handler : Platform → Processor → ℕ → List Bytes → Kernel ℕ
unfolding svc
trapsvc_handler p cpu argc argv =
    if ltb argc 2
    then (do svc p cpu 4; pure 0)
    else (do system_call_requested ← hex_argument argv 1; svc p cpu system_call_requested; pure 0)

pub uptime_handler : ℕ → List Bytes → Kernel ℕ
uptime_handler argc argv = do
  milliseconds ← uptime
  console_print (literal "0x")
  print_value 8 milliseconds
  console_print (literal "\n")
  pure 0
