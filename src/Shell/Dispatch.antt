-- ===== src/Shell/Dispatch.antt =====
-- kernel/Console/Shell.c: the table of the commands, `dispatch_command` and `run_shell_loop`.
pub mod Unknown
pub mod Known
pub mod Settles
pub mod Rounds
use charcoalos.Shell.Info.{info_handler}
use charcoalos.Shell.Handlers.{
  reboot_handler, uptime_handler, Processor, memread_handler, help_handler, Build, command_texts,
  add_handler, panic_handler, trapsvc_handler,
}
use charcoalos.Shell.Tokens.{tokenize_command}
use charcoalos.Strings.{string_compare}
use charcoalos.Console.{console_read_line, console_print, literal}
use charcoalos.Interrupt.{Platform}
use charcoalos.Panic.{panic}
use charcoalos.Machine.{◌>>=◌, ◌>>◌, pure, Kernel, or_fault, unfinished, stop}
use charcoalos.Prelude.{
  ℕ, zero, suc, true, not, List, [], ◌∷◌, map, leb, ◌==◌, if◌then◌else◌, length, get_elem?, take,
  drop, Bytes, String,
}

pub record ShellCommand : Type 0 where
  pub name : Bytes
  pub help_text : Bytes
  pub handler : ℕ → List Bytes → Kernel ℕ

abbrev max_shell_args : ℕ
max_shell_args = 10

-- The ten elements of `tokens` before the first is written.
abbrev no_tokens : List ℕ
no_tokens = 0 ∷ 0 ∷ 0 ∷ 0 ∷ 0 ∷ 0 ∷ 0 ∷ 0 ∷ 0 ∷ 0 ∷ []

table : List (String × String) → List (ℕ → List Bytes → Kernel ℕ) → List ShellCommand
table ((name, help_text) ∷ texts) (handler ∷ others) =
    record { name = literal name; help_text = literal help_text; handler = handler }
    ∷ table texts others
table texts others = []

module _ (p : Platform) (cpu : Processor) (build : Build) where
  unfoldable pub command_handlers : List (ℕ → List Bytes → Kernel ℕ)
  command_handlers =
      add_handler
      ∷ help_handler
      ∷ info_handler p build
      ∷ memread_handler
      ∷ panic_handler
      ∷ reboot_handler p
      ∷ trapsvc_handler p cpu
      ∷ uptime_handler
      ∷ []

  pub commands : List ShellCommand
  unfolding table command_handlers
  commands = table command_texts command_handlers

  pub shell_command_at : ℕ → Kernel ShellCommand
  unfolding commands
  shell_command_at index =
      if leb (length commands) index
      then panic "Requested shell command that does not exist"
      else or_fault (get_elem? commands index)

-- The command was found.
pub run_command : ShellCommand → Bytes → ℕ → List Bytes → Kernel (Unit {0})
run_command command name argc argv = do
  result ← command.handler argc argv
  if result == 0 then pure tt else (do
    console_print (literal "Error: an error occurred in the command ")
    console_print name
    console_print (literal "\n"))

-- The loop over the commands that are left, and what comes behind it.
pub find_command : List ShellCommand → Bytes → ℕ → List Bytes → Kernel (Unit {0})
unfolding run_command
find_command [] name argc argv = do
  console_print (literal "Error: the command ")
  console_print name
  console_print (literal " could not be recognized. Type help for a list of commands.\n")
find_command (command ∷ known) name argc argv = do
  found ← or_fault (string_compare name command.name)
  if found then run_command command name argc argv else find_command known name argc argv

-- The command comes back as the tokens are cut out of it.
pub dispatch_command : List ShellCommand → Bytes → Kernel Bytes
dispatch_command known command = do
  (command', tokens, argc) ← tokenize_command command no_tokens max_shell_args
  if argc == 0 then pure command' else (do
    let argv = map (λ offset. drop offset command') (take argc tokens)
    name ← or_fault (get_elem? argv 0)
    find_command known name argc argv
    pure command')

abbrev command_length : ℕ
command_length = 255

pub print_prompt : Kernel (Unit {0})
print_prompt = console_print (literal "> ")

-- `while (true)`: so many rounds of it.
pub shell_rounds : ℕ → List ShellCommand → Bytes → Kernel (Unit {0})
shell_rounds zero known command = stop unfinished
shell_rounds (suc fuel) known command = do
  line ← console_read_line command command_length true
  command' ← dispatch_command known line
  print_prompt
  shell_rounds fuel known command'

-- Each round takes at least one byte of the input. `command` is the buffer on the stack.
pub run_shell_loop : List ShellCommand → Bytes → Kernel (Unit {0})
run_shell_loop known command m =
    (print_prompt >> shell_rounds (suc (length m.input)) known command) m
