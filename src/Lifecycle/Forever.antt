-- ===== src/Lifecycle/Forever.antt =====
-- kernel/Main/Main.c, `kmain`: the kernel as a whole.
use charcoalos.DeviceTree.Reserved.Entry.{placed}
use charcoalos.Shell.Handlers.Settles.{KeepsInput}
use charcoalos.Shell.Dispatch.Rounds.{run_shell_loop-NeverReturns, Never, NeverReturns}
use charcoalos.Shell.Handlers.{Build, Processor}
use charcoalos.Lifecycle.Start.{kernel_init-Starts, welcomed, ParseEnds}
use charcoalos.DeviceTree.Types.{HardwareInfo, Blob}
use charcoalos.DeviceTree.Sound.{Refused, IsPlaced, IsFilled}
use charcoalos.Machine.Ends.{Leaves, Leaves-bind}
use charcoalos.Machine.Settles.{Clean-Proper, Proper}
use charcoalos.Interrupt.{Platform}
use charcoalos.Panic.{kernel_halt, halt}
use charcoalos.Console.{platform_console_tx_flush}
use charcoalos.Lifecycle.{run_client, kmain, kernel_run, kernel_init}
use charcoalos.Machine.{
  ◌>>◌, Machine, run_default_foreground_client, Kernel, stopped, Outcome, Stop, returned,
  custom_client, Client,
}
use mathlib.Core.Path.{subst}
use charcoalos.Prelude.{ℕ, ◌≤◌, sym, inl, inr, Option, none, some, length, Bytes}

-- No loop runs on, and nothing is written outside of an object.
abbrev Stops : Stop → Machine → Type 0
Stops s n = Proper s

abbrev pub StopsProperly : Outcome (Unit {0}) × Machine → Type 0
StopsProperly = Leaves Stops Never

Refused-Proper : (s : Stop) → Refused s → Proper s
Refused-Proper s (inl e) = subst Proper (sym e) tt
Refused-Proper s (inr e) = subst Proper (sym e) tt

welcomed-Stops :
    (r : Outcome HardwareInfo × Machine) → ParseEnds r → Leaves Stops (λ _ _. Unit {0}) (welcomed r)
welcomed-Stops (returned info, n) h = tt
welcomed-Stops (stopped s, n) h = Refused-Proper s h

kernel_init-Stops :
    (p : Platform) (hw_info : HardwareInfo) (dtb : Blob) (m : Machine)
    → IsPlaced dtb
    → IsFilled hw_info
    → Leaves Stops (λ _ _. Unit {0}) (kernel_init p hw_info dtb m)
kernel_init-Stops p hw_info dtb m placed filled =
    let (first, ends, ran) = kernel_init-Starts p hw_info dtb m placed filled in
    subst (Leaves Stops (λ _ _. Unit {0})) (sym ran) (welcomed-Stops _ ends)

-- A client that a caller has set may return, and stops properly else.
abbrev pub RunsClients : (ℕ → Kernel (Unit {0})) → Type 0
RunsClients custom = (n : ℕ) (m : Machine) → Leaves Stops (λ _ _. Unit {0}) (custom n m)

NeverReturns-Stops :
    (r : Outcome (Unit {0}) × Machine) → NeverReturns r → Leaves Stops (λ _ _. Unit {0}) r
NeverReturns-Stops (returned a, n) h = absurd h
NeverReturns-Stops (stopped s, n) h = Clean-Proper s n h

module _ (p : Platform) (cpu : Processor) (build : Build) (command : Bytes)
    (custom : ℕ → Kernel (Unit {0})) (keeps : KeepsInput cpu) (long : 255 ≤ length command)
    (clients : RunsClients custom) where
  run_client-Stops :
      (client : Option Client) (m : Machine)
      → Leaves Stops
          (λ _ _. Unit {0})
          ((elim client as (λ x. Kernel (Unit {0})) [
            | none ↦ halt
            | some set_before ↦ run_client p cpu build command custom set_before
          ])
            m)
  unfolding run_client halt platform_console_tx_flush
  run_client-Stops none m = tt
  run_client-Stops (some run_default_foreground_client) m =
      NeverReturns-Stops _ (run_shell_loop-NeverReturns p cpu build command m keeps long)
  run_client-Stops (some (custom_client n)) m = clients n m

  kernel_run-Stops :
      (m : Machine) → Leaves Stops (λ _ _. Unit {0}) (kernel_run p cpu build command custom m)
  unfolding kernel_run
  kernel_run-Stops m = run_client-Stops m.foreground_client m

kernel_halt-Stops : (m : Machine) → StopsProperly (kernel_halt {A = Unit {0}} m)
unfolding kernel_halt halt platform_console_tx_flush
kernel_halt-Stops m = tt

-- With a device tree blob below the last 16 gigabytes of the address space, arrays of `hw_info` that
-- have their lengths, at most sixteen of its regions counted and each of them usable, a buffer of at
-- least 255 bytes for the shell, an `svc` that takes no console input, and clients that run properly,
-- `kmain` never returns, whatever the blob holds and whatever is typed: no loop of the start or of
-- the shell runs on within a round, and no write falls outside of its object; the kernel stops where
-- it waits for input, halts or restarts, or where a read falls outside of an object.
pub kmain-NeverReturns :
    (p : Platform) (cpu : Processor) (build : Build) (command : Bytes)
    (custom : ℕ → Kernel (Unit {0})) (hw_info : HardwareInfo) (dtb : Blob) (m : Machine)
    → KeepsInput cpu
    → 255 ≤ length command
    → RunsClients custom
    → IsPlaced dtb
    → IsFilled hw_info
    → StopsProperly (kmain p cpu build command custom hw_info dtb m)
unfolding kmain
kmain-NeverReturns p cpu build command custom hw_info dtb m keeps long clients placed filled =
    let run = kernel_run p cpu build command custom in
    Leaves-bind Stops (λ _ _. Unit {0}) Never (kernel_init p hw_info dtb) (λ _. run >> kernel_halt)
      m (kernel_init-Stops p hw_info dtb m placed filled)
      λ _ n _.
        Leaves-bind Stops (λ _ _. Unit {0}) Never run (λ _. kernel_halt) n
          (kernel_run-Stops p cpu build command custom keeps long clients n)
          λ _ n' _. kernel_halt-Stops n'
