-- ===== src/Lib.antt =====
-- icosaos: a 32-bit x86 kernel in C.
--
-- The parts of the kernel that this library models, bottom up:
--
-- Memory (src/kernel/memory.c) is the allocator of physical frames. `Allocator` holds the globals
-- `bitmap`, `total_pages` and `bitmap_size_bytes`; `alloc_page` and `free_page` take it and return
-- it. `scan_bytes` and `scan_bits` are the two loops of `alloc_page`, `claim` is the body that hands
-- a page out. Memory/Spec says which pages are used and when an allocator is valid.
--
-- Paging (src/kernel/paging.c) is `map_page`, `unmap_page` and `init_paging` over a `Machine`: the
-- frame allocator, the page directory, physical memory as 32-bit words, and a log of the addresses
-- flushed by `invlpg`. Page tables are reached through their physical addresses, as in the code.
-- Paging/Spec defines `translate`, the leaf entry that an address is translated by. UserMemory
-- (src/kernel/usermem.c) allocates and frees ranges of pages on top of both.
--
-- Heap is the first-fit allocator that src/kernel/heap.c and src/kernel/user_heap.c share line for
-- line: headers in a store indexed by address, with the splitting, the coalescing and the appending
-- of blocks at 32 bits. What differs is where its pages come from, which is the interface
-- `PageSource`; KernelHeap and UserHeap fill it. Heap/Blocks views the heap as a list of blocks and as
-- a map from pointers to the sizes of their regions, which the theorems are about.
--
-- Keyboard (src/kernel/keyboard.c) is the ring buffer of keys as a `Keys` record, the interrupt
-- handler, and the line editor. The interrupts that arrive while the editor waits are an argument: one
-- list of scan codes for each look at the buffer. Keyboard/Queue views the ring as a queue, and
-- Keyboard/Line says what editing does to a list of keys.
--
-- Segments (src/kernel/gdt.c, src/kernel/tss.c) and Interrupts (src/kernel/idt.c) build the descriptor
-- tables; Segments/Fields and Interrupts/Gates read them as the processor does. Console
-- (src/kernel/lvga.c) is the text terminal, and Strings (src/kernel/string.c) the functions on
-- blocks of memory and strings, over memory as a function of the address.
--
-- Framebuffer (src/kernel/vga_graphics.c) is the console on the linear framebuffer, over memory by
-- address: `Mode` is what `vga_init` sets, `Screen` adds the cursor and memory. Framebuffer/Geometry
-- says when a mode is sound, Framebuffer/Fill what it means that a memory shows a picture.
-- Framebuffer/Text is `vga_put_char` and `vga_print`; the font of src/kernel/headers/sysfont.h is a
-- parameter. Klog (src/kernel/klog.c) and Handlers (src/kernel/handlers.c) print on it.
--
-- Fat32 (src/kernel/fat32.c) has the names and the parts of a path; Fat32/Volume the volume, its
-- clusters and files, Fat32/Directory the directories and Fat32/Resolve the paths. They use `kmalloc`
-- and `kfree` through the interface `KernelAllocator`, whose contract is `Serves` of
-- Fat32/Volume/Allocation. Disk (src/kernel/ata.c, and `fat32_read_sector`) reads a sector from a drive
-- that is a parameter. Disk/Controller is the exchange behind it: the writes to the ports of the
-- controller, the loops that wait for its status, and the words of its data port.
--
-- Tasks (src/kernel/tasks.c) is the frame of a new process and the scheduler. Memory/Startup is
-- `init_bitmap_allocator` of src/kernel/memory.c; Memory/Startup/Walk lists the entries that its walks
-- along the tags visit. Ports is the log of the writes of `init_pic` (src/kernel/io.c).
--
-- Boot (src/kernel/kernel.c) puts the parts together. Boot has the search for the framebuffer and
-- `launch_isolated_user_process`; Boot/Startup the state `Kernel`, made of the states of the parts,
-- the lines of the log, and the start of the components up to paging; Boot/SelfTest the start of the
-- file system and its self tests; Boot/Main `kernel_main` with its three ends; Boot/Main/Reaches
-- composes the parts' theorems along it. Each call of a part gets the memory and the page tables as
-- the calls before it left them.
--
-- Bounds and fuel: 32-bit arithmetic is `add32`, `sub32` and `mul32` of Prelude/Words. A loop along a
-- chain of headers takes fuel; more fuel than blocks is enough. So do the loops on strings, by their
-- length, the line editor, by the number of keys, the reading of a file, by the number of its
-- clusters, and the start-up of the frame allocator, by the pages of a chunk, so `kernel_main` by 2 ^
-- 20. The loop of `klog_status` needs 85 rounds where it ends, the start of paging one for each page
-- of the framebuffer, and the loops of the disk one for each look at the status. The recursive call of
-- `kmalloc` is counted apart, and one such call is enough.
--
-- Not modelled: the assembly entry, the interrupt stubs and the switch to a program; the loops that
-- halt the machine; interrupts between two instructions of the start; the program that is started, as
-- code; and the shell in src/kernel/kernel.c, which is commented out in the source. The bitmap of the
-- frames, the page tables and the headers of the heaps are kept apart from the memory of bytes, which
-- holds the framebuffer, the disk's sectors, strings and stacks. That memory is not translated: behind
-- the start of paging a read or write of an address without a mapping goes on as before, where the
-- machine faults. The file system reads its sectors from a controller that is ready; Disk/Controller
-- has the loops that wait. The heap that `fat32_read_file` gets is an interface, `Serves`; no heap of
-- the source is shown to keep it. A division by an entry size of zero in the memory map of the boot
-- loader, which traps, counts as a table without entries.
pub mod Prelude
pub mod Strings
pub mod Keyboard
pub mod Console
pub mod Fat32
pub mod Disk
pub mod Framebuffer
pub mod Klog
pub mod Handlers
pub mod Tasks
pub mod Ports
pub mod Boot
pub mod Segments
pub mod Interrupts
pub mod Memory
pub mod Heap
pub mod Paging
pub mod UserMemory
pub mod KernelHeap
pub mod UserHeap
pub mod Tests
