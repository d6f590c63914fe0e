-- ===== src/Reboot/Settles.antt =====
-- The restart, and the exception vectors: the code stops properly and leaves the input alone.
use charcoalos.Console.Settles.{printing}
use charcoalos.Exception.Types.{
  exception_action_panic, ExceptionAction, exception_action_restart, exception_action_resume,
}
use charcoalos.Exception.Settles.{Settles-handle_exception}
use charcoalos.Panic.Settles.{Settles-halt}
use charcoalos.Machine.Settles.{Settles, Settles-bind, Settles-pure}
use charcoalos.Interrupt.{Platform, rpi, virt}
use charcoalos.Panic.{kernel_panic, kernel_halt, halt}
use charcoalos.Reboot.{start_watchdog, kernel_restart, platform_reboot, take_exception}
use charcoalos.Machine.{pure}
use charcoalos.Prelude.{ℕ, Option, none, some, List, Bytes}

Settles-platform_reboot : (A : Type 0) (p : Platform) → Settles (platform_reboot {A = A} p)
unfolding platform_reboot start_watchdog kernel_halt
Settles-platform_reboot A rpi = search (printing, Settles-halt) depth 8
Settles-platform_reboot A virt = search printing depth 8

pub Settles-kernel_restart : (A : Type 0) (p : Platform) → Settles (kernel_restart {A = A} p)
unfolding kernel_restart
Settles-kernel_restart A p = Settles-platform_reboot A p

pub Settles-kernel_panic :
    (A : Type 0) (message : Option Bytes) → Settles (kernel_panic {A = A} message)
unfolding kernel_panic kernel_halt
Settles-kernel_panic A none = Settles-halt A
Settles-kernel_panic A (some message) = search (printing, Settles-halt) depth 8

Settles-action :
    (p : Platform) (action : ExceptionAction)
    → Settles (elim action [
      | exception_action_resume ↦ pure tt
      | exception_action_restart ↦ platform_reboot {A = Unit {0}} p
      | exception_action_panic ↦ halt {A = Unit {0}}
    ])
Settles-action p exception_action_resume = Settles-pure tt
Settles-action p exception_action_restart = Settles-platform_reboot _ p
Settles-action p exception_action_panic = Settles-halt _

pub Settles-take_exception :
    (p : Platform) (saved : List ℕ) (kind : ℕ) → Settles (take_exception p saved kind)
unfolding take_exception
Settles-take_exception p saved kind =
    Settles-bind _ _ (Settles-handle_exception p saved kind) (Settles-action p)
