-- ===== src/Lifecycle.antt =====
-- kernel/Main/Lifecycle.c and kernel/Main/Main.c. The blob at the address `dtb` is an object.
pub mod Start
pub mod Forever
pub mod Boots
use charcoalos.Shell.Handlers.{Processor, Build}
use charcoalos.Shell.Dispatch.{commands, run_shell_loop}
use charcoalos.DeviceTree.Types.{HardwareInfo, Blob}
use charcoalos.DeviceTree.Parse.{parse_device_tree_blob}
use charcoalos.Memory.{MemoryRegion, physical_memory_regions}
use charcoalos.Console.{literal, print_value, console_print}
use charcoalos.Interrupt.{print_timer_diagnostics, Platform, initialize_timer}
use charcoalos.Panic.{halt, kernel_halt}
use charcoalos.Machine.{
  ◌>>=◌, ◌>>◌, returned, Client, or_fault, Kernel, custom_client, gets,
  run_default_foreground_client, pure,
}
use charcoalos.Prelude.{ℕ, zero, suc, ◌+◌, Option, none, some, List, get_elem?, Bytes}

pub kernel_set_foreground_client : Option Client → Kernel (Unit {0})
kernel_set_foreground_client client m = (returned tt, record m { foreground_client = client })

-- `for (size_t i = 0; i < hw_info.physical_memory_region_count; ++i)`, with `left` rounds to go.
pub print_regions : ℕ → ℕ → List MemoryRegion → Kernel (Unit {0})
print_regions zero i regions = pure tt
print_regions (suc left) i regions = do
  region ← or_fault (get_elem? regions i)
  console_print (literal "Physical memory region at base address 0x")
  print_value 8 region.base_address
  console_print (literal " with size 0x")
  print_value 8 region.size
  console_print (literal " bytes\n")
  print_regions left (i + 1) regions

-- The client is set unless one has been.
pub set_default_client : Kernel (Unit {0})
set_default_client = do
  client ← gets (λ m. m.foreground_client)
  elim client [
    | none ↦ kernel_set_foreground_client (some run_default_foreground_client)
    | some set_before ↦ pure tt
  ]

-- `hw_info` is static: its contents before come in.
pub kernel_init : Platform → HardwareInfo → Blob → Kernel (Unit {0})
unfolding print_regions set_default_client kernel_set_foreground_client
kernel_init p hw_info dtb = do
  print_timer_diagnostics p
  console_print (literal "Initializing timer... ")
  initialize_timer p
  console_print (literal "done.\n")
  console_print (literal "Parsing device tree blob for hardware information...\n")
  info ← parse_device_tree_blob (some hw_info) dtb
  print_regions info.physical_memory_region_count 0 info.physical_memory_regions
  console_print (literal "\nWelcome to CharcoalOS.\n")
  set_default_client

-- A client is the shell, on its buffer, or the code that a caller of the kernel has set.
module _ (p : Platform) (cpu : Processor) (build : Build) (command : Bytes)
    (custom : ℕ → Kernel (Unit {0})) where
  pub run_client : Client → Kernel (Unit {0})
  run_client run_default_foreground_client = run_shell_loop (commands p cpu build) command
  run_client (custom_client n) = custom n

  pub kernel_run : Kernel (Unit {0})
  unfolding run_client
  kernel_run = do
    client ← gets (λ m. m.foreground_client)
    elim client [ none ↦ halt | some set_before ↦ run_client set_before ]

  pub kmain : {A : Type 0} → HardwareInfo → Blob → Kernel A
  kmain hw_info dtb = do kernel_init p hw_info dtb; kernel_run; kernel_halt
