-- ===== src/Lib.antt =====
-- TinyShell OS is an i386 teaching kernel: a shell over cooperative tasks, message queues, a RAM
-- file system, a page allocator, page tables and a heap. This library models the parts of its C
-- code that keep state or take decisions, and proves what makes each of them correct.
--
-- The parts and how they meet. The boot code describes the machine's memory to the page allocator
-- (kernel/mm/pmm.c), whose pages the page tables (kernel/mm/vmm.c) map; the kernel's own data comes
-- from a heap (kernel/mm/heap.c). The keyboard's interrupt handler (kernel/arch/x86/keyboard.c)
-- decodes scan codes into a queue; the shell's task takes characters out of it, edits a line
-- (kernel/shell/line_editor.c), parses it (kernel/shell/command.c) and runs the command against the
-- file system (kernel/fs/ramfs.c). Tasks are switched by the scheduler (kernel/task/task.c with
-- boot/context_switch.S) and talk through endpoints (kernel/ipc/ipc.c). The shell and the boot code
-- print through the console (kernel/console/console.c), on the screen and on COM1.
--
-- Base holds what the parts share: tests on numbers, C arrays and counted loops, first-hit
-- searches, counts, 32-bit arithmetic, ring buffers and tables. Each other file names its C file;
-- its child modules hold the invariants, an abstract description where there is one, and the
-- proofs.
--   Ipc         kernel/ipc/ipc.c, include/ipc/ipc.h
--   Ramfs       kernel/fs/ramfs.c, include/fs/ramfs.h
--   Pmm         kernel/mm/pmm.c, include/mm/pmm.h
--   Heap        kernel/mm/heap.c, include/mm/heap.h
--   Vmm         kernel/mm/vmm.c, include/mm/vmm.h, kernel/arch/x86/paging.c
--   Keyboard    kernel/arch/x86/keyboard.c, include/arch/x86/keyboard.h
--   LineEditor  kernel/shell/line_editor.c, include/shell/line_editor.h
--   Command     kernel/shell/command.c, include/shell/command.h
--   Console     kernel/console/console.c, include/console.h, kernel/serial.c
--   Task        kernel/task/task.c, include/task/task.h, boot/context_switch.S
--
-- How the code is read. The static variables of a C file are one record, and a function is a
-- definition of its name, less the file's prefix (`ipc_send` is `send` of Ipc), from the arguments
-- and that record to the result and the next record. A struct is a record, an enum a data type, a
-- pointer that the code compares with 0 an Option, an array a function of the index. A word is a
-- natural number below 2^32 or 2^64, with the wrap-around written out; the words of the allocator's
-- bitmaps and EFLAGS are arrays of bits, since the code only reads and writes their bits. The heap
-- is a memory of bytes, in which a pointer is an address and 0 is NULL. A context switch is the
-- code of boot/context_switch.S on a memory of words: a call of the scheduler ends where its `ret`
-- goes, and Task.System continues the context that is resumed there. The page tables' entries are
-- words, and the processor holds translations until it is told to drop them; its walk through the
-- tables and its accesses, under the paging and write-protect bits of CR0, are Vmm.Calls'.
--
-- Bounds. Counted loops recurse on their number of rounds, and searches on the number of indices
-- left. Three loops recurse on fuel: the one that takes the arguments of a command gets nine
-- rounds, one more than there are arguments, the one that collects decimal digits gets ten, the
-- places of its buffer, as a 32-bit number has no more digits, and the search through the heap's
-- blocks gets 8192, the blocks that an arena has room for; where these are not enough it is `none`.
-- The rounds of the heap's inspection are the code's own limit.
--
-- What is not modelled. The Multiboot parser (kernel/boot/multiboot.c) and the shell's command loop
-- (kernel/shell/runtime.c) are outside of this library. The boot sequence and self tests
-- (kernel/kernel.c), the status report, the serial port's registers and the descriptor tables and
-- interrupt controllers of kernel/arch/x86 and boot are sequences of port and memory writes or
-- printed text. Interrupts are modelled where code runs under them: between the reads and writes of
-- `keyboard_pop_char`, and as the flag that the scheduler saves and restores.
pub mod Base
pub mod Ipc
pub mod Ramfs
pub mod LineEditor
pub mod Keyboard
pub mod Task
pub mod Vmm
pub mod Command
pub mod Pmm
pub mod Console
pub mod Heap
