-- ===== src/Lib.antt =====
-- A model of the SpatulaOS kernel (src/kernel), file by file, with the properties listed at the end.
--
-- The parts and their files:
--   * Str: lib/string.c. A string that is only read is the list of its bytes up to the NUL; the
--     functions that write take byte memory and addresses.
--   * Heap: mm/heap.c and mm/vm.h. `kmalloc`, `kfree`, `heap_dump` and `heap_validate` over a memory
--     of 32-bit words, cut into the steps that the C functions take (`search`, `split`,
--     `append_block`, `check_block`, `merge_next`, `merge_prev`, `trim`). Heap/Blocks describes the
--     linked headers by a list of blocks, Heap/Alloc/Policy is the allocator on that list and
--     Heap/Free/Policy the deallocator. Heap/Alloc/Find has the search with what it takes (Taken),
--     Heap/Alloc/Grow the outcomes of a call. Heap/Free/Merge has the words of a merge, Next and
--     Prev the merges with the two neighbours, Trim the end of `kfree`, Refines and Restore the
--     whole, Taking what an allocation takes from the list.
--   * Pmm: mm/pmm.c, the bitmap of the page frames, and the memory map of core/multiboot.h.
--     Pmm/Search is about the bits, Pmm/Alloc about the two operations, Pmm/Init about the boot.
--   * Paging: mm/paging.c, the page directory and its tables, without the processor's registers;
--     `translate` reads them as the processor does. `paging_init` writes to physical addresses,
--     `map_page` through the translation, where a page fault of its own ends the model's run.
--   * Fs: fs/ramfs, fs/vfs and fs/fd. Nodes stand in a store by address. Fs/Ramfs holds the
--     operations of a node, Fs/Path those of paths and mounts, Fs/Fd the descriptor table that calls
--     both, Fs/Path/Shape what a path depends on. A write behind a buffer or through NULL is the
--     result `fault`, a kernel panic `panic`.
--   * Vga: video/vga.c. Keyboard: drivers/keyboard.c with `pic_send_eoi` of drivers/pic.c.
--     Console: core/console.c, which echoes on the screen of Vga. Time: core/time.c.
--   * Arch: arch/x86/gdt.c and tss.c (Arch/Gdt), drivers/pit.c, the remapping of drivers/pic.c and
--     arch/x86/cpuid.c (Arch/Ports), core/idt.c (Arch/Idt) with the gates, the dispatch of interrupts
--     and the page fault handler, which maps pages of the heap on demand.
--   * Debug: the reports of core/debug.c. Vga/Output: a sequence of calls that print, as a list.
--   * Machine: the state of the running kernel, one record of the states above, and what it takes
--     from outside (`World`).
--   * Shell: shell/shell.c. Shell itself splits a line and finds the command, Shell/Commands holds the
--     handlers, each a function of the arguments and the machine (Screen, Storage, Files; Made and
--     Stored are about what several of them do in turn, Places about the memory that they take),
--     Shell/Run the dispatch, the loop and the steps of the kernel between which interrupts come.
--     Under Shell/Run, Handlers and Touches state what every handler leaves alone, Invariant and
--     Reach what holds in every state that is reached.
--   * Boot: core/boot.c as a sequence of stages, core/status.c, core/multiboot.c and kernel.c up to
--     its loop.
--   * Prelude: the names that all share, Boolean tests, lists, integers and memory.
--
-- A component's file holds its state as a record and its functions under the C names, without the
-- prefix of the file (`putchar` for `vga_putchar`); static variables are fields, port writes are a
-- log and port reads are arguments. Files below it hold its theorems, and Tests concrete runs.
--
-- Machine integers are natural numbers with the wrap-around written out. Loops that the data bounds
-- are structural; a loop over linked headers, over memory up to a NUL, over a path or over timer
-- ticks takes fuel, and its theorem states how much is enough: one more than the blocks of the
-- list, the characters of the text, or the ticks. Addresses that `kmalloc` returns to the file
-- system, and the garbage of fresh memory, are arguments. In Heap two accesses meet exactly when
-- their addresses are equal, because the allocator's accesses are all to aligned words.
--
-- A handler or a stage of the boot returns a machine, `fault`, `panic` or `out_of_fuel`; what was
-- printed before one of the last three is not kept. The words of the heap and the bytes of the
-- files are separate memories. The file system records which pieces of the heap's memory its nodes
-- and buffers were put in; a call of `kmalloc` or `kfree` that writes to one of them, and memory for
-- a new one that meets one, are a `fault`, since what follows depends on how these are laid out. The
-- memory of the heap, of nodes and of buffers is taken as mapped, so that no page fault interrupts its
-- use; `memdump` and the tables that `map_page` writes go through the page tables. The
-- keyboard's interrupts come between the turns of the shell's loop, those of the timer there and in
-- the waits. `World.fuel` bounds the loops over the heap and each wait; 221 is enough for the waits
-- of the boot.
--
-- Not modelled: interrupts inside a handler but for its waits; the date of the build, which the
-- compiler writes; inline assembly, drivers/io.c, which is nothing else, and the assembly files; and
-- the older text in comments that core/idt.c and core/debug.c end in.
pub mod Prelude
pub mod Str
pub mod Vga
pub mod Heap
pub mod Keyboard
pub mod Console
pub mod Time
pub mod Fs
pub mod Pmm
pub mod Paging
pub mod Machine
pub mod Debug
pub mod Arch
pub mod Shell
pub mod Boot
