-- ===== src/Shell/Dispatch/Settles.antt =====
-- kernel/Console/Shell.c, `dispatch_command` on any bytes: it stops properly and leaves the input alone.
use charcoalos.Console.Settles.{printing}
use charcoalos.Shell.Handlers.Settles.{
  Settles-panic_handler, Settles-trapsvc_handler, Settles-uptime_handler, Settles-add_handler,
  Settles-memread_handler, KeepsInput, Settles-reboot_handler, Settles-help_handler,
}
use charcoalos.Shell.Tokens.Settles.{tokenize_command-KeepsSize, KeepsSize}
use charcoalos.Shell.Info.Settles.{Settles-info_handler}
use charcoalos.Shell.Handlers.{Processor, Build}
use charcoalos.Shell.Dispatch.{
  find_command, no_tokens, ShellCommand, run_command, command_handlers, table, dispatch_command,
  commands,
}
use charcoalos.Machine.Ends.{Anything}
use charcoalos.Machine.Settles.{
  SettlesOn, SettlesOn-pure, Settles, SettlesOn-or_fault, SettlesOn-bind, SettlesOn-if,
}
use charcoalos.Interrupt.{Platform}
use charcoalos.Prelude.{
  ℕ, ◌≡◌, List, [], ◌∷◌, map, arith, ◌==◌, length, get_elem?, take, drop, All, Bytes,
}

abbrev pub Handles : List ShellCommand → Type 0
Handles = All λ command. (argc : ℕ) (argv : List Bytes) → Settles (command.handler argc argv)

pub commands-Handles :
    (p : Platform) (cpu : Processor) (build : Build)
    → KeepsInput cpu
    → Handles (commands p cpu build)
unfolding commands table command_handlers
commands-Handles p cpu build keeps = (
  Settles-add_handler,
  (
    Settles-help_handler,
    (
      Settles-info_handler p build,
      (
        Settles-memread_handler,
        (
          Settles-panic_handler,
          (
            (λ argc argv. Settles-reboot_handler argc argv p),
            (
              (λ argc argv. Settles-trapsvc_handler argc argv p cpu keeps),
              (Settles-uptime_handler, tt),
            ),
          ),
        ),
      ),
    ),
  ),
)

Settles-run_command :
    (command : ShellCommand) (name : Bytes) (argc : ℕ) (argv : List Bytes)
    → Settles (command.handler argc argv)
    → Settles (run_command command name argc argv)
unfolding run_command
Settles-run_command command name argc argv h = search (printing, h) depth 12

Settles-find_command :
    (known : List ShellCommand) (name : Bytes) (argc : ℕ) (argv : List Bytes)
    → Handles known
    → Settles (find_command known name argc argv)
unfolding find_command
Settles-find_command [] name argc argv h = search printing depth 12
Settles-find_command (command ∷ known) name argc argv h =
    let run = Settles-run_command command name argc argv (h.0 argc argv) in
    let rest = Settles-find_command known name argc argv h.1 in
    search (printing, run, rest) depth 12

-- The buffer that comes back is of the size that it had.
abbrev pub OfSize : ℕ → Bytes → Type 0
OfSize size line = length line ≡ size

pub dispatch_command-OfSize :
    (known : List ShellCommand) (command : Bytes)
    → Handles known
    → SettlesOn (OfSize (length command)) (dispatch_command known command)
unfolding dispatch_command
dispatch_command-OfSize known command h =
    let Size = OfSize (length command) in
    SettlesOn-bind (KeepsSize (length command)) Size _ _
      (tokenize_command-KeepsSize command no_tokens 10 (omega arith))
      λ found kept.
        let argv = map (λ offset. drop offset found.0) (take found.2 found.1) in
        SettlesOn-if Size (found.2 == 0) _ _ (λ _. SettlesOn-pure Size found.0 kept)
          λ _. SettlesOn-or_fault Size (get_elem? argv 0) _ λ name e.
            SettlesOn-bind Anything Size _ _ (Settles-find_command known name found.2 argv h)
              λ _ _. SettlesOn-pure Size found.0 kept
