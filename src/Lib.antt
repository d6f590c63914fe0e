-- ===== src/Lib.antt =====
-- CharcoalOS, a small kernel for 64-bit ARM, for the Raspberry Pi and for QEMU's `virt` machine.
--
-- The kernel is entered with the address of a device tree blob. It sets up a timer, parses the blob
-- (kernel/Hardware/DeviceTree.c) and in it the memory regions (kernel/Memory/Memory.c), and runs a
-- shell (kernel/Console/Shell.c) on the UART's console (kernel/Console/IO.c). Interrupts and system
-- calls come to arch/arm64/ExceptionHandler.c, which gives interrupts to arch/arm64/Interrupt.c, and
-- that counts the ticks of kernel/Time/Uptime.c. A condition that the kernel cannot handle ends in
-- kernel/Panic/Panic.c, which prints a message and halts the processor (arch/arm64/Halt.c).
--
-- How code is modelled. A function is a definition of its name. Code with effects is of type
-- `Kernel A`: it takes the machine (module Machine) and gives an outcome and the machine after
-- it. The outcome is a value, or a way to stop: halted, restarting, waiting for input, a fault,
-- an overrun, or unfinished. A fault is a read outside of an object, which C leaves undefined;
-- the models check each access, a load from an address that the user gives included. An overrun
-- is the same for a write. Unfinished is a loop on fuel that ran out, and the results show that
-- it is never reached. The machine has the bytes given to the console's UART, those of them that
-- are known to have left it, and those still to come, the global variables (ticks, the flag of
-- the exception handler, the foreground client), what memory holds at the addresses that answer,
-- what the device registers and the system registers read as, the byte order, and a log of the
-- writes to registers. A `char *` is the list of the bytes from it to the end of its object, an
-- array the list of its elements, and a number of w bits a natural number with `% 2 ^ w` where it
-- may wrap.
--
-- Which file models which part:
--   Prelude     names of the libraries, tests, lists, bits and words that all modules share
--   Machine     the machine and the type of kernel code; Machine/Ends and Machine/Settles have the
--               rules that proofs of how a run ends use
--   Strings     kernel/String/String.c
--   Endian      kernel/Hardware/Endian.h, for a host of either byte order
--   Console     kernel/Console/IO.c (console_print, console_read_line, console_print_hex_value,
--               console_uint64_from_hex and the rest)
--   Uart        platform/*/IO.c: the loops that wait for the UART, which is a parameter (Device)
--   Minimal     the stand-alone kernels of minimal/
--   Panic       kernel/Panic/Panic.c, arch/arm64/Halt.c, kernel_halt of kernel/Main/Lifecycle.c
--   Memory      kernel/Memory/Memory.c (physical_memory_regions)
--   DeviceTree  kernel/Hardware/DeviceTree.c and DeviceTree.h (parse_device_tree_blob): Types the
--               structs, Header, Reserved, Property and Walk the parts of the function in its order,
--               Parse the whole, Sound the predicates of its results; Encode is a tree as the
--               Devicetree Specification writes it, and the modules named Encode, Passes, Whole,
--               Plain, Memory, Root and RoundTrip follow the parser over such a blob
--   Uptime      kernel/Time/Uptime.c
--   Interrupt   arch/arm64/Interrupt.c and platform/*/InterruptMap.h
--   Exception   arch/arm64/ExceptionHandler.c and ExceptionTypes.h (handle_exception)
--   Reboot      platform/*/Reboot.c, kernel/Panic/Restart.c, and what the vectors of
--               arch/arm64/ExceptionVectors.s do with the action that the handler returns
--   Shell       kernel/Console/Shell.c: Tokens is tokenize_command, Handlers and Info the handlers,
--               with arch/arm64/Info.c and platform/*/Info.c, Dispatch the table, dispatch_command
--               and run_shell_loop
--   Lifecycle   kernel/Main/Lifecycle.c and Main.c: Start and Forever on any blob, Boots on the blob
--               of a device tree
--   Examples    the functions and the theorems at concrete inputs
--
-- Fuel. The walk over the structure block has one round for each byte of the block and one more; each
-- round takes at least the four bytes of its token. The loop over the reserved regions has 256 rounds,
-- since entry 255 is refused. The line editor has one round for each byte that comes and one more.
-- Aligning to four bytes has three rounds. All other loops are over a count or a list.
--
-- The shell's loop has a round for each byte that comes and one more, since a line takes at least one.
--
-- The loops that wait for the UART take a bound on the reads of its flags, which is enough when it is
-- above what the UART needs at most (patience) and above the pause before a byte comes.
--
-- Taken as parameters: the PL011 UART (Uart/Device), with what its manual says of its flags; what an
-- `svc` instruction saves and sets (Processor), what the compiler puts in (Build), a client that other
-- code has set, and the bytes that a read through a null pointer finds (`null_page` of Blob).
--
-- In the kernel a byte goes out or comes in at once, and a flush leaves every byte transmitted; Uart
-- shows that the UART's loops do the same. Halting is behind such a flush.
--
-- Not modelled: the assembly of the boot and of the vectors but for the actions; interrupts in the
-- middle of other code; the unit tests.
pub mod Prelude
pub mod Machine
pub mod Strings
pub mod Endian
pub mod Console
pub mod Minimal
pub mod Panic
pub mod Memory
pub mod DeviceTree
pub mod Uart
pub mod Uptime
pub mod Interrupt
pub mod Exception
pub mod Reboot
pub mod Shell
pub mod Lifecycle
mod Examples
