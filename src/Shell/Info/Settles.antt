-- ===== src/Shell/Info/Settles.antt =====
-- `info_handler` stops properly and leaves the input alone.
use charcoalos.Console.Settles.{printing}
use charcoalos.Shell.Info.{
  stack_pointer_address, read_sctlr_el1, info_handler, current_exception_level, print_processor,
  print_entry, print_build, read_mpidr_el1,
}
use charcoalos.Shell.Handlers.{Build}
use charcoalos.Interrupt.Settles.{Settles-read_timer_frequency}
use charcoalos.Machine.Settles.{Settles}
use charcoalos.Interrupt.{Platform}
use charcoalos.Prelude.{ℕ, List, Bytes, String}

Settles-print_entry : (label : String) (size v : ℕ) → Settles (print_entry label size v)
unfolding print_entry
Settles-print_entry label size v = search printing depth 8

Settles-print_build : (build : Build) → Settles (print_build build)
unfolding print_build
Settles-print_build build = search (printing, Settles-print_entry) depth 20

Settles-print_processor : (p : Platform) → Settles (print_processor p)
unfolding print_processor current_exception_level read_mpidr_el1 read_sctlr_el1
    stack_pointer_address
Settles-print_processor p = search (printing, Settles-print_entry) depth 30

pub Settles-info_handler :
    (p : Platform) (build : Build) (argc : ℕ) (argv : List Bytes)
    → Settles (info_handler p build argc argv)
unfolding info_handler
Settles-info_handler p build argc argv =
    search
      (
        printing, Settles-print_entry, Settles-print_build, Settles-print_processor,
        Settles-read_timer_frequency,
      )
      depth 20
