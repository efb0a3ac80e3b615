-- ===== src/Lib.antt =====
-- OpenIDP-OS is a 64-bit kernel with a small userland. Its parts, as modelled here:
--
-- The physical memory manager (src/memory/pmm.c, include/memory/pmm.h) hands out pages of 4096
-- bytes from a bitmap. Pmm holds the state and the calls pmm_alloc_page and pmm_free_page with the
-- bits of the map, Pmm/Pages the runs of pages, Pmm/Init the initialisation from the boot loader's
-- memory map. Pmm/Bits, Count, Valid, Search and Scan carry the invariant: the count of used pages
-- is the number of set bits. Init/Ranges and Init/Startup follow the bits through the
-- initialisation, for memory maps with holes too. The loops run over the number of pages, so they
-- need no further fuel.
--
-- The tasks (src/process/task.c, include/process/task.h) stand in a circular list. Process holds
-- the structures by their addresses and get_task_by_pid, Process/TaskList the list as a sequence.
-- Process/Scheduler has the timer tick scheduler_schedule with the clean-up of the task that
-- exited last, task_exit, and create_kernel_task with the first stack frame. Scheduler/Exit,
-- Rounds, Spawn and Release have their proofs. The code asks the memory managers by the interface of
-- Process/Memory: the heap, the page tables and the pages are operations on a state of their own;
-- the words of a new stack are a store beside the structures. The loops along the list run on
-- fuel; fuel of the number of tasks is enough.
--
-- The message calls (src/syscall/sys_process.c) find the receiver in that list and use a ring of
-- 16 messages in its structure. Process/Ipc has sys_ipc_send and sys_ipc_recv, Ipc/Mailbox and
-- Ipc/Post the boxes that stand for the rings, Ipc/Refine their relation to the code.
--
-- The keyboard driver (src/drivers/keyboard.c, include/drivers/keyboard.h) decodes scancodes in an
-- interrupt and puts packets into a ring that a system call reads. Keyboard has the handler with
-- its tables, Keyboard/Queue the abstract queue, Refine, Modifiers and Packets the proofs.
--
-- The virtual memory manager (src/memory/vmm.c, include/memory/vmm.h) keeps page tables of four
-- levels. Vmm has the tables as words by table and index, and the calls vmm_map_page,
-- vmm_unmap_page, vmm_get_mapping, vmm_create_pml4 and vmm_create_process_pml4 over the allocator
-- as a parameter; `none` stands for the endless loop when memory runs out. Vmm/Source says what is
-- asked of the allocator, Vmm/Entries what the bits of an entry mean, Vmm/Tree the tables as a
-- tree and the walks through it; Grow, Alloc and Leaf have the changes of one entry, Map, Unmap
-- and Fork the calls.
--
-- The byte and string functions (src/utility/kstring.c) are in Strings, over memory as a map from
-- addresses to bytes; those on strings run on fuel, for which more than the length is enough.
--
-- The system calls on memory (src/syscall/sys_memory.c) are in Sysmem: sys_sbrk, sys_share_mem and
-- sys_unmap on the tasks and the page tables. `none` stands for a loop without end when memory is
-- out.
--
-- The serial port (src/drivers/com1.c) is used for printing. Serial has the output routines up to
-- serial_printf over the list of the bytes sent, Serial/Digits the numbers as numerals of a base
-- and Serial/Pieces the formats as pieces, each with a predicate on the bytes it prints. The loop
-- over the digits of a 64-bit number has fuel 65.
--
-- The kernel heap (src/memory/kheap.c) is a doubly linked list of blocks, which lie one behind the
-- other from an address on. Kheap has the blocks as a store by address with kmalloc, kfree and
-- krealloc, over the page allocator and the page tables as parameters (Pages). Kheap/Segments is
-- the view as a sequence of sizes and flags. Fit and Search have the search and the split, Grow,
-- Expand and Alloc the growth and kmalloc, Merge and Free kfree, Apart and Restore the two
-- together; Places has a segment among the others. The loops along the list run on fuel; more than
-- the number of blocks is enough. The code tests neither what pmm_alloc_page returns nor
-- KHEAP_MAX, and vmm_map_page may wait without end for memory, which is `none` in Pages;
-- Kheap/Alloc has the condition under which the heap can grow (CanGrow).
--
-- The terminal (userspace/terminal/term.c) shows a grid of cells and reads bytes with escape
-- sequences. Terminal has its state, Terminal/Screen the drawing calls, as a list of what is
-- drawn, and the rectangles that changed, Terminal/Writing the operations on the grid,
-- Terminal/Escape the state machine of term_write. The file system and the image decoder are
-- parameters (Files). Terminal/Page is a page of text, Writing/Scroll, Refine and Bounds and
-- Escape/Text, Colors and Bounds have the proofs, Escape/Palette the colours as a table of their
-- own. The two font functions of userspace/libgfx/gfx.c are in Terminal/Screen.
--
-- The window manager (userspace/idpwm.c) splits the screen along a binary tree of windows. Wm has
-- its state, with the nodes and windows as stores, Wm/Pool the pool of nodes with insertion and
-- deletion, Wm/Layout the layout, Wm/Input the clients, the focus and the keys. Layout/Tiling is
-- the tree as a data type with the rectangles of its leaves, Placed and Screen the proofs;
-- Pool/Links says how the nodes link it, Fresh, Hang, Insert and Window have the allocation and
-- the insertion. The recursions on the tree run on fuel; for the layout the number of nodes is
-- enough. What sys_share_mem returns is a parameter, and the system calls and the drawing are a
-- list of actions.
--
-- Base has what they share: Boolean tests, lists, memory as a map, machine words with their
-- wrap-around written out, the bits of words, rings and finite families.
--
-- Numbers are natural numbers; an unsigned 64-bit sum or difference is taken modulo 2^64, and an
-- int that is returned as a status is an integer. An interrupt is a step of its own between calls.
--
-- Not modelled: the ELF loader, the files and the rest of the userland, and what is port I/O or
-- assembly: the descriptor tables, the interrupt controller, the timer, the set-up of the serial
-- port and the framebuffer. FatFs and the boot protocol are other projects' code.
pub mod Base
pub mod Keyboard
pub mod Process
pub mod Pmm
pub mod Strings
pub mod Vmm
pub mod Wm
pub mod Serial
pub mod Terminal
pub mod Kheap
pub mod Sysmem
