-- ===== src/Lib.antt =====
-- GeekToyOS: a model of the kernel's memory management, its console, clock and interrupt tables, and
-- of the library routines that they rest on, with the theorems about them.
--
-- The parts and how they interact. Physical memory is served in stages by src/kernel/mm/memory.c:
-- first from the end of the reserved area, then from a bitmap of the page frames
-- (src/lib/bitmap.c), which `mem_map_init` sets up from the boot loader's memory map, and at last
-- by the buddy allocator (src/kernel/mm/buddy.c), which `buddy_init` fills from the bitmap.
-- src/kernel/mm/slab.c cuts pages into objects; both keep rings of include/lib/list.h.
-- src/arch/x86_64/mm.c and src/arch/i386/mm.c map regions of memory in page tables, the kernel's
-- and those of the firmware's tables, which src/drivers/acpi.c searches; the boot loader's tags are
-- found by src/kernel/multiboot2.c.
-- Beside them stand the calendar (src/lib/time.c), the byte and string routines (src/lib/string.c),
-- formatted printing (src/lib/printfmt.c), the console (src/kernel/console.c), which draws its
-- characters by src/drivers/video.c, the lock (src/kernel/spinlock.c), the clock
-- (src/kernel/clock.c), and the interrupts (src/kernel/interrupt.c, src/arch/x86/interrupt.c) with
-- the tables of the APIC (src/arch/x86/apic.c), the gates of src/arch/x86_64/idt.c and the timer
-- of src/arch/x86/hpet.c.
--
-- The files:
--   * Base: names of the libraries passed on, Boolean tests, lists over native numbers, machine
--     words with their wrap-around and the macros of include/lib/const.h, the bits of a number.
--   * MemOps: the byte memory, `memcpy`, `memmove`, `memset`, loop by loop.
--   * Strings: `memcmp`, `strlen`, `strnlen`, `strncpy`, `strncmp`; Strings/Copies has the functions
--     that run to a NUL.
--   * Bitmap: `bitmap_init`, `bitmap_set`, `bitmap_find`; Bitmap/Byte has the masks, Bitmap/Set and
--     Bitmap/Find the two operations.
--   * Buddy: `struct zone` as a record with the free lists as lists of frame numbers, and every
--     function of the file; Buddy/Blocks, Buddy/Merge for freeing, Buddy/Take and Buddy/Marks for
--     allocating, Buddy/Weight for counting pages, Buddy/Cover for the frames on the lists,
--     Buddy/Pair for a block and its buddy, Buddy/Expand for what is left of a block.
--   * Pages: the static variables of memory.c as a record; `block_page_alloc` in Pages/Blocks,
--     `mem_map_init` in Pages/Frames, `mm_phy_page_alloc` and `mm_phy_page_free` in Pages/Early.
--   * Ring: the rings of include/lib/list.h in pointer form, and the lists they stand for.
--   * Slab: a cache with its slabs and the memory its free lists go through; Slab/Objects and
--     Slab/Cycle for the free list, Slab/Sizes for `kmalloc`.
--   * Heap: the caches as objects of the first one, over the pages of memory.c: `kmem_init`,
--     `kmem_cache_create`, `kmalloc` and `kfree` with their calls; Heap/Objects for an object of a
--     new page, Heap/Large for whole pages.
--   * Paging: `arch_map_region` and `__map_region` as the list of the entries they write; Paging/Walk
--     has `pgdir_walk`, `expand_page` and the rest of src/arch/x86_64/mm.c over the tables in memory.
--     Paging/Walk/Translate is what the processor makes of the tables, and Tree the invariant; Grow,
--     Cut, Expand and Attach are about new tables, Reach, Arrive, Outcome, Down and Arrival about the
--     way of the walk, Write, Mapped and Region about what is mapped at last, Remap about pages that
--     are there already, and Check about `check_pgtable`.
--   * Paging32: the two levels of tables of src/arch/i386/mm.c.
--   * Mboot: the tags of the boot information (src/kernel/multiboot2.c) and `for_mmap`.
--   * Acpi: the tables of the firmware (src/drivers/acpi.c), which the kernel maps by `arch_kmap`.
--   * Hpet: src/arch/x86/hpet.c and the start of the clock.
--   * Idt: the gates of src/arch/x86_64/idt.c and the segments of src/arch/i386/gdt.c.
--   * Calendar: `struct tm`, `mktime`, `gmtime`, `localtime`; Calendar/Strftime has `strftime`.
--   * Clock: the tick counter and the loops that wait for it, against the values they read;
--     Clock/Rtc has the real-time clock of src/arch/x86/clock.c.
--   * Screen: the back buffer, the dirty rectangle and the pixels of video.c; Screen/Rows for the
--     copied rows, Screen/Shown and Screen/Marked for the dirty rectangle, Screen/Pixel and
--     Screen/Drawn for what drawing changes; Screen/Glyph has colours, characters and scrolling,
--     Screen/Init the set-up.
--   * Console: `cputchar` on the serial line and the screen, and the printing calls.
--   * Format: `printnum` and the buffer of `vsnprintf`; Format/Formats has `vprintfmt` as the list
--     of the characters that a format puts, Format/Errors the error texts.
--   * Spinlock: the steps of the cores at a lock, as a relation.
--   * Apic: `parse_madt` over the bytes of the table, and the maps between interrupts and GSIs.
--   * Ioapic, Lapic: the registers of the APICs as functions from their indexes.
--   * Interrupt: the handler table of src/kernel/interrupt.c and what an interrupt calls;
--     Interrupt/Exceptions has src/arch/x86/interrupt.c and `ioapic_init`.
-- The modules named Tests evaluate the definitions and apply the theorems at concrete inputs.
--
-- Numbers are native, with the wrap-around of the C types written out; an `int` is its 32-bit
-- pattern; a pointer is an address and memory a function from addresses.
--
-- Bounds and fuel. Loops that count are structural. The word loop of `memcpy` has the byte count as
-- fuel, the loop of `buddy_page_free` the page count, since each round takes one at least; the
-- shift loop for the order has the 64 bits of the word; `block_page_alloc` and `buddy_init` have
-- one round more than there are frames; `printnum` has the number itself, each call dividing by
-- the base; `map_region` has one round more than there are pages; the year loop of `gmtime` has
-- five rounds, as at most four years are left, the month loop twelve; `parse_madt` takes its fuel
-- as an argument, and the length of the table is enough; `vprintfmt` has the length of the format,
-- since each round takes a character at least, and a bound on the length of the strings; the waits
-- take as fuel the reads of the counter, and end when so many ticks pass in them.
--
-- Not modelled: log output; the names of the caches; the windows of the i386 port's `arch_kmap`; the loop of `psf_init` over a unicode table; `apic_init`, start-up, the other
-- processors, the serial line and the empty scheduler. lib/div.c is a copy of another project's
-- library, and include/kernel/multiboot2_s.h the header of the Multiboot specification.
pub mod Base
pub mod MemOps
pub mod Bitmap
pub mod Buddy
pub mod Calendar
pub mod Clock
pub mod Ring
pub mod Screen
pub mod Console
pub mod Slab
pub mod Heap
pub mod Pages
pub mod Paging
pub mod Paging32
pub mod Spinlock
pub mod Strings
pub mod Format
pub mod Apic
pub mod Mboot
pub mod Acpi
pub mod Hpet
pub mod Idt
pub mod Ioapic
pub mod Lapic
pub mod Interrupt
