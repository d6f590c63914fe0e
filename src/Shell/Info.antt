-- ===== src/Shell/Info.antt =====
-- kernel/Console/Shell.c, `info_handler`, with arch/arm64/Info.c and platform/*/Info.c.
pub mod Settles
use charcoalos.Shell.Handlers.{Build, other_compiler, Compiler, gnu, clang}
use charcoalos.Console.{print_value, console_print, literal}
use charcoalos.Interrupt.{rpi, read_timer_frequency_in_hz, virt, Platform}
use charcoalos.Reboot.{mmio_base, uart0_base}
use charcoalos.Uptime.{interrupt_frequency_in_hz}
use charcoalos.Machine.{◌>>=◌, ◌>>◌, pure, Kernel, sctlr_el1, gets, sp, mpidr_el1, current_el}
use charcoalos.Prelude.{ℕ, ◌/◌, ◌^◌, List, if◌then◌else◌, u8, Bytes, String}

-- `CurrentEL` holds the exception level in bits 2 and 3.
pub current_exception_level : Kernel ℕ
current_exception_level = gets λ m. m.sysreg current_el / 2 ^ 2

pub read_mpidr_el1 : Kernel ℕ
read_mpidr_el1 = gets λ m. m.sysreg mpidr_el1

pub read_sctlr_el1 : Kernel ℕ
read_sctlr_el1 = gets λ m. m.sysreg sctlr_el1

pub stack_pointer_address : Kernel ℕ
stack_pointer_address = gets λ m. m.sysreg sp

abbrev pub arch_name : Bytes
arch_name = literal "arm64"

abbrev pub platform_name : Platform → Bytes
platform_name rpi = literal "Raspberry Pi"
platform_name virt = literal "QEMU virt"

-- A label, a number of so many bytes, and the end of the line.
print_entry : String → ℕ → ℕ → Kernel (Unit {0})
print_entry label size v = do
  console_print (literal label)
  print_value size v
  console_print (literal "\n")

compiler_name : Compiler → Bytes
compiler_name clang = literal "clang\n"
compiler_name gnu = literal "gcc\n"
compiler_name other_compiler = literal "Unknown"

-- Lines 151 to 177.
print_build : Build → Kernel (Unit {0})
unfolding print_entry compiler_name
print_build build = do
  console_print (literal "CharcoalOS built and linked on ")
  console_print build.date
  console_print (literal " ")
  console_print build.time
  console_print (literal "\n")
  console_print (literal "Compiler: ")
  console_print (compiler_name build.compiler)
  print_entry "Pointer size (bytes): 0x" 1 8
  console_print (literal "Hosted C environment: ")
  console_print (literal (if build.hosted then "yes\n" else "no\n"))

-- Lines 179 to 214.
print_processor : Platform → Kernel (Unit {0})
unfolding print_entry current_exception_level read_mpidr_el1 read_sctlr_el1 stack_pointer_address
print_processor p = do
  print_entry "MMIO base address: 0x" 8 (mmio_base p)
  print_entry "UART base address: 0x" 8 (uart0_base p)
  stack_pointer ← stack_pointer_address
  print_entry "Stack pointer: 0x" 8 stack_pointer
  exception_level ← current_exception_level
  print_entry "Current exception level: 0x" 1 (u8 exception_level)
  mpidr ← read_mpidr_el1
  print_entry "MPIDR_EL1: 0x" 8 mpidr
  sctlr ← read_sctlr_el1
  print_entry "SCTLR_EL1: 0x" 8 sctlr
  console_print (literal "Architecture: ")
  console_print arch_name
  console_print (literal "\n")
  console_print (literal "Platform: ")
  console_print (platform_name p)
  console_print (literal "\n")

-- The bits of the doubles 3.125 and of the square root of 2 that the processor takes.
abbrev double_3125 : ℕ
double_3125 = 0x4009000000000000

abbrev double_sqrt_2 : ℕ
double_sqrt_2 = 0x3FF6A09E667F3BCD

pub info_handler : Platform → Build → ℕ → List Bytes → Kernel ℕ
unfolding print_build print_processor print_entry
info_handler p build argc argv = do
  print_build build
  print_processor p
  system_clock_freq ← read_timer_frequency_in_hz
  print_entry "System clock frequency (Hz): 0x" 8 system_clock_freq
  print_entry "Interrupt timer ticks per second: 0x" 8 interrupt_frequency_in_hz
  print_entry "3.125 (hex): 0x" 8 double_3125
  print_entry "sqrt(2): 0x" 8 double_sqrt_2
  pure 0
