-- ===== src/Examples/Shell.antt =====
-- The shell's commands and the start of the kernel.
use charcoalos.Lifecycle.Forever.{kmain-NeverReturns, StopsProperly}
use charcoalos.Shell.Handlers.Settles.{KeepsInput}
use charcoalos.Shell.Dispatch.Rounds.{run_shell_loop-NeverReturns, NeverReturns}
use charcoalos.Shell.Handlers.Memread.{memory_lines, memread_handler_lem, arguments}
use charcoalos.Shell.Handlers.Trap.{trapsvc_handler-echoed, TakesSvc}
use charcoalos.Exception.SystemCall.{echoed, sync_el1_spx-IsSync, handle_exception-SystemCall}
use charcoalos.Exception.Types.{
  exception_type_sync_el1_spx, exception_action_resume, exception_action_restart,
}
use charcoalos.Exception.{handle_exception}
use charcoalos.Shell.Dispatch.Known.{dispatch_command-known, Names, named_later, named_here}
use charcoalos.Console.Print.{shown, until_nul}
use charcoalos.Console.Hex.{hex_digits}
use charcoalos.Examples.Tree.{small_blob-IsPlaced, small_blob, zeroed_info-IsFilled, zeroed_info}
use charcoalos.Shell.Handlers.Add.{hex_value, add_handler_lem}
use charcoalos.Shell.Dispatch.Unknown.{not_recognized, dispatch_command-unknown}
use charcoalos.Shell.Tokens.Words.{first_word, words}
use charcoalos.Shell.Handlers.Panics.{panic_handler_lem, panic_text}
use charcoalos.Panic.{drained}
use charcoalos.Shell.Handlers.{
  panic_handler, add_handler, gnu, Build, Processor, help_handler, command_texts, trapsvc_handler,
  memread_handler,
}
use charcoalos.Shell.Dispatch.{
  commands, dispatch_command, command_handlers, run_command, ShellCommand, run_shell_loop,
}
use charcoalos.Lifecycle.Start.{kernel_init-Starts, ParseEnds, welcomed}
use charcoalos.Lifecycle.Boots.{timer_started}
use charcoalos.DeviceTree.Parse.{parse_device_tree_blob}
use charcoalos.Strings.Compare.{terminated}
use charcoalos.Machine.{returned, emit, pure, Machine, Kernel, stopped, fault, halted}
use charcoalos.Examples.{quiet_machine}
use charcoalos.Console.{literal, digit_value}
use charcoalos.Interrupt.{virt}
use charcoalos.Lifecycle.{kernel_init, kmain}
use charcoalos.Machine.{◌>>◌}
use charcoalos.Prelude.{
  ℕ, zero, suc, ◌+◌, ◌*◌, ◌%◌, ◌^◌, ◌≡◌, refl, false, some, none, List, [], ◌∷◌, ◌++◌, map, arith,
  ◌==◌, if◌then◌else◌, length, take, Bytes, codes,
}

abbrev some_processor : Processor
some_processor = record { saved_registers = λ number. number ∷ []; enters_exception = λ m. m }

abbrev pub some_build : Build
some_build = record {
  date = literal "Jan  1 2026";
  time = literal "00:00:00";
  compiler = gnu;
  hosted = false;
}

add_handler_lem_example :
    add_handler 3
      (codes "add" ∷ terminated (codes "0xff") [] ∷ terminated (codes "1") [] ∷ [])
      quiet_machine
    ≡ (
      returned 0,
      emit quiet_machine (
          hex_digits 8 ((hex_value (codes "0xff") + hex_value (codes "1")) % 2 ^ 64) ++ shown "\n"),
    )
add_handler_lem_example =
    add_handler_lem (codes "add") (codes "0xff") (codes "1") [] [] quiet_machine (ground arith)
      (ground arith)

dispatch_command-unknown_example :
    (command : Bytes) × (dispatch_command
        (commands virt some_processor some_build)
        (terminated (codes "hello world") [])
        quiet_machine
      ≡ (returned command, emit quiet_machine (not_recognized (first_word (codes "hello world")))))
dispatch_command-unknown_example =
    dispatch_command-unknown virt some_processor some_build (codes "hello world") [] quiet_machine
      (ground arith) (omega arith) (unfold first_word in (ground arith))

kernel_init-Starts_example :
    (first : Bytes) × ParseEnds (
      parse_device_tree_blob (some zeroed_info) small_blob (timer_started virt first quiet_machine))
    × (kernel_init virt zeroed_info small_blob quiet_machine
        ≡ welcomed (
            parse_device_tree_blob
              (some zeroed_info)
              small_blob
              (timer_started virt first quiet_machine)))
kernel_init-Starts_example =
    kernel_init-Starts virt zeroed_info small_blob quiet_machine small_blob-IsPlaced
      zeroed_info-IsFilled

abbrev help_command : ShellCommand
help_command = record {
  name = literal "help";
  help_text = literal "Display this help message";
  handler = help_handler;
}

help_command-Names :
    Names
      (first_word (codes "help me"))
      command_texts
      (command_handlers virt some_processor some_build)
      help_command
unfolding command_handlers first_word
help_command-Names = named_later (ground arith) (named_here refl)

dispatch_command-known_example :
    (line : Bytes) × (name : Bytes) × (argv : List Bytes) × (map until_nul argv
      ≡ take 10 (words (codes "help me")))
    × (until_nul name ≡ first_word (codes "help me"))
    × (dispatch_command
          (commands virt some_processor some_build)
          (terminated (codes "help me") [])
          quiet_machine
        ≡ (run_command help_command name (length argv) argv >> pure line) quiet_machine)
dispatch_command-known_example =
    dispatch_command-known virt some_processor some_build (codes "help me") [] quiet_machine
      help_command (ground arith) (omega arith) help_command-Names

-- A processor whose `svc` saves 32 registers that all hold the number.
abbrev copies : ℕ → ℕ → List ℕ
copies zero number = []
copies (suc n) number = number ∷ copies n number

abbrev pub svc_processor : Processor
svc_processor = record {
  saved_registers = copies 32;
  enters_exception = λ m. record m { sysreg = λ register. 0x15 * 2 ^ 26 };
}

svc_processor-TakesSvc : TakesSvc svc_processor
svc_processor-TakesSvc = record { number_saved = λ number. refl; class_set = λ m. refl }

trapsvc_handler-echoed_example :
    trapsvc_handler virt svc_processor 2
      (codes "trapsvc" ∷ terminated (codes "0x4") [] ∷ [])
      quiet_machine
    ≡ (returned 0, echoed (hex_value (codes "0x4")) (svc_processor.enters_exception quiet_machine))
trapsvc_handler-echoed_example =
    trapsvc_handler-echoed virt svc_processor (codes "trapsvc") (codes "0x4") [] quiet_machine
      svc_processor-TakesSvc (ground arith) (unfold digit_value in (ground arith))
      (unfold digit_value in (ground arith))

abbrev calling_machine : Machine
calling_machine = svc_processor.enters_exception quiet_machine

handle_exception-SystemCall_example :
    handle_exception virt (copies 32 5) exception_type_sync_el1_spx calling_machine ≡ (
      if 5 == 0x4444
      then (
        returned exception_action_restart,
        emit calling_machine (shown "System call received: 0x4444 ... restart\n"),
      )
      else (returned exception_action_resume, echoed 5 calling_machine))
handle_exception-SystemCall_example =
    handle_exception-SystemCall virt (copies 32 5) exception_type_sync_el1_spx 5 calling_machine
      (record { is_sync = sync_el1_spx-IsSync; class_is = refl }) refl (ground arith)

-- Memory answers at the address 0x10 only.
abbrev sparse_machine : Machine
sparse_machine = record quiet_machine { memory = λ address. if address == 16 then some 5 else none }

memread_handler_lem_example :
    memread_handler 3
      (codes "memread" ∷ arguments ((codes "0x10", []) ∷ (codes "20", []) ∷ []))
      sparse_machine
    ≡ (
      stopped fault,
      emit sparse_machine
          (memory_lines sparse_machine.memory ((codes "0x10", []) ∷ (codes "20", []) ∷ [])),
    )
unfolding digit_value
memread_handler_lem_example =
    memread_handler_lem (codes "memread") ((codes "0x10", []) ∷ (codes "20", []) ∷ [])
      sparse_machine (ground arith)

panic_handler_lem_example :
    panic_handler 2 (arguments ((codes "panic", []) ∷ (codes "overheated", []) ∷ [])) quiet_machine
    ≡ (
      stopped halted,
      drained
          (emit quiet_machine (panic_text ((codes "panic", []) ∷ (codes "overheated", []) ∷ []))),
    )
panic_handler_lem_example =
    panic_handler_lem ((codes "panic", []) ∷ (codes "overheated", []) ∷ []) quiet_machine
      (ground arith)

svc_processor-KeepsInput : KeepsInput svc_processor
svc_processor-KeepsInput m = refl

-- A buffer of so many zeros.
abbrev zeros : ℕ → Bytes
zeros zero = []
zeros (suc n) = 0 ∷ zeros n

-- Two lines and a third one that is not complete.
abbrev typing_machine : Machine
typing_machine = record quiet_machine { input = codes "add 1 2\n\n memread 10\nre" }

run_shell_loop-NeverReturns_example :
    NeverReturns
      (run_shell_loop (commands virt svc_processor some_build) (zeros 255) typing_machine)
run_shell_loop-NeverReturns_example =
    run_shell_loop-NeverReturns virt svc_processor some_build (zeros 255) typing_machine
      svc_processor-KeepsInput (ground arith)

-- A client that does nothing.
abbrev pub idle_client : ℕ → Kernel (Unit {0})
idle_client n = pure tt

kmain-NeverReturns_example : StopsProperly (
    kmain virt svc_processor some_build
      (zeros 255)
      idle_client
      zeroed_info
      small_blob
      typing_machine)
kmain-NeverReturns_example =
    kmain-NeverReturns virt svc_processor some_build (zeros 255) idle_client zeroed_info small_blob
      typing_machine svc_processor-KeepsInput (ground arith) (λ n m. tt) small_blob-IsPlaced
      zeroed_info-IsFilled
