-- ===== src/Lib.antt =====
-- ratos is a small x86-64 kernel in C. This library models its physical and virtual memory
-- management, descriptor table, serial port, interrupt controllers, timer, terminal and log, stack
-- traces, ACPI and local APIC setup, the checks of the boot loader's answers, the order of its
-- initialisation, and the helpers below them.
--
-- Conventions. An unsigned integer of C is a number, and an operation that can wrap is followed by
-- the remainder that it wraps to (Prelude/Words.antt). Memory is a function from addresses to bytes
-- (Memory.antt); a function of C that writes through a pointer takes the memory and returns the new
-- one. An array access is `base + size * index` and does not wrap, since C leaves it undefined there.
--
-- - Prelude, Prelude/Bits, Prelude/Int, Prelude/Lists: comparisons, words, binary digits, differences
--   of bytes, the length of a list.
-- - Memory: bytes and little-endian words; Memory/Words has their laws.
-- - Util: `floorchunku64`, `ceilchunku64`, `ceildivu64` and `get_bitmask64` of src/util.h.
-- - Strings: src/string.c, function by function. Blocks has the functions with a count, Scan
--   `strlen` and `strchr`, Compare `strcmp` and `strncmp`, Copy `strcpy` and `strncpy`.
-- - Phys: src/mem/phys.c. `Phys` holds the static variables; the bitmap itself lies in the memory.
--   Bitmap describes each operation on one page by its effect on the bit of every page; Regions does
--   so for the loops over a region, Alloc and AllocRegion for the two searches, Init for `phys_init`.
--   Reuse puts allocation and release together.
-- - Virt: src/mem/virt.c. `Kernel` holds the static variables of both allocators, the memory, CR3 and
--   what `invlpg` was run on; a call returns, halts, both with
--   the state in which it does, or runs out of fuel. Walk has the walk over the
--   tables, Map mapping and unmapping, Contexts the searches and the contexts, Init `virt_init`.
--   Tables says when the tables are a tree, apart from the bitmap and from the free pages; Growth and
--   Create keep the tree when a table is added, Path, Prepare, Access and Translate follow an address
--   through it, and Mapping puts them together for MapPage
--   (`virt_map`), Unmap (`virt_unmap`) and User (`virt_map_user`);
--   Search compares the search for unmapped pages with the first fit in the space.
--   The abstract view is `Space` (Space.antt), which gives each of the 2 ^ 36 pages its entry, 0 where
--   the walk ends early. `Shows k s` says that the tables of `k` are a tree, that no two entries lead to
--   the same table, and that they stand for `s`. Leaf reads the entry of a page off the tables, Extends
--   says what adding tables keeps, Lookup and Store are a read and a write of one page; Regions,
--   UnmapRegion and UserRegion have the loops of `virt_map`, `virt_unmap` and `virt_map_user` over a
--   region against the space, Anywhere `virt_map_anywhere`.
-- - Gdt: src/mem/gdt.c. Encoding reads a descriptor the way the processor does, Segments describes the
--   table that `gdt_init` builds.
-- - Io: `outb` and `inb` of src/util.h. A run of a driver extends a history of port accesses, and a
--   device is any function that answers a read from the history; theorems hold for every device.
-- - Serial: src/drv/rs232.c. Setup compares `serial_init` with the registers of a 16550, Transfer has
--   `serial_write`, Receive `serial_read` and the loopback test.
-- - Pit: src/drv/pit.c.
-- - Idt: src/int/idt.c. Pic compares `idt_init` with the initialisation sequence of an 8259, Irq
--   counts the acknowledgements of `idt_int_handler`.
-- - Term: src/drv/term.c, from the characters that nanoprintf makes of a format on. Output describes
--   what goes to the serial port and to the terminal, Log puts a log line together.
-- - Stacktrace: src/debug/stacktrace.c. The symbol map, the buffer `function_name` and the frames are in
--   the memory. Symbols says what a symbol map looks like, Number and Lookup read it, Nearest compares
--   the search with an order on the symbols, Printing follows a call. A frame is
--   read through a pointer, which is a fault where nothing is mapped.
-- - Limine: src/limine_data.c. A response is an optional value; Present compares the two checks with
--   the getters, Rsdp follows the physical address of the RSDP through the page tables.
-- - Acpi: src/acpi/acpi.c and src/acpi/lapic.c, and KernelApi: src/acpi/kernel_api.c. Entries is about
--   the walk over the MADT, Mapping about the memory that uACPI maps, Logging about its log lines,
--   Lapic about `lapic_init`. Mapping and Lapic stand on Virt/Anywhere.
-- - Boot: src/main.c. `kmain` composes the initialisations of all the parts above; Safety says when it
--   goes on, and that it then reads through no null pointer.
-- - Tests: runs at concrete inputs.
--
-- Loops. A `for` loop with a known count recurs on the rounds left. The loops of src/string.c that
-- stop at a terminator take fuel and return `none` when it runs out; one round more than the string
-- has characters is enough. The loop of `serial_write` takes
-- fuel in the same way. The search of `phys_alloc_region` is given one round more than the
-- address space has pages, and is proved to end within them. The searches of virt.c take fuel, and one
-- round more than there are pages up to their limit is enough. The loop over the lines of a symbol map
-- needs a round more than it has symbols, and each scan a round more than the map has characters; the
-- loop over the MADT needs a round more than there are entries, and never ends on an entry of length 0.
-- A loop over a region makes
-- `rounds length` or `steps step size` rounds; the loop of the source does the same unless `i` wraps,
-- which the theorems exclude.
--
-- Parameters. What uACPI does and where its structures have their fields are the record `Uacpi`, its
-- log levels `UacpiLogLevels`, the characters that nanoprintf makes of a number `Formats`, and what
-- `kmain` finds `Environment`, with `LIMINE_MEMMAP_USABLE` and the value of the APIC's MSR.
--
-- Not modelled: the setup of flanterm in `term_init`, the text of log lines outside Term (a line is an
-- event with its level, or left out), src/cpuid.h, whose two uses are log lines, the port accesses of
-- 16 and 32 bits, which no function uses, `msr_write`, src/proc/proc.h, which declares a function that
-- is not there, assembly, and the submodules flanterm, nanoprintf, uACPI and limine.h.
pub mod Prelude
pub mod Memory
pub mod Util
pub mod Strings
pub mod Phys
pub mod Gdt
pub mod Io
pub mod Serial
pub mod Pit
pub mod Virt
pub mod Idt
pub mod Stacktrace
pub mod Limine
pub mod Term
pub mod Acpi
pub mod Boot
pub mod Tests
