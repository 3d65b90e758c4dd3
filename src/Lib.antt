-- ===== src/Lib.antt =====
-- The kernel of the OSFIX operating system: its byte and string routines, the physical page
-- allocator, the virtual file system with its mount table, the in-memory file system and the
-- unpacker of its archive, the scheduler, the page tables, the loader of modules with its symbol
-- tables, the entries, bitmap, seeking and reading of the exFAT driver, the byte orders, and the
-- printing and reading of numbers. The unpacker goes through the calls of the virtual file
-- system, whose functions the in-memory file system provides; both use the string routines.
--
-- Parts and files.
-- - Base: the shared names, lists and Boolean tests over the native numbers, and integers for C's
--   signed results.
-- - Memory (kernel/main/util/string.c: memcpy, memset, memmove, memcmp): a flat memory is a
--   function from addresses to bytes, and each loop recurs on the rounds that are left.
--   Memory/Copy and Memory/Compare say what the loops leave and return.
-- - Text (kernel/main/util/string.c: the functions on strings): a string is the list of the bytes
--   from a pointer on, with a terminator past the end; an offset stands for a pointer into it.
--   Text/Content relates the comparisons and strncpy to the bytes before the terminator, and
--   Text/Search says what strchr and strstr find.
-- - Pmm (kernel/main/mm/pmm.c): the buddy allocator. A free list is the list of its regions'
--   physical addresses and the bitmap a function of a bit's index; sums of 64-bit numbers are
--   taken modulo 2^64. Pmm/Blocks treats aligned blocks and their buddies, Pmm/Owners counts the
--   free blocks that cover a page, Pmm/Alloc and Pmm/Free follow palloc_order and pfree_order,
--   Pmm/Count follows the counter of free pages. The links between regions lie in the free pages
--   themselves; a sound state has no page in two regions, so that a chain of links is a list.
--   Pmm/Init models pmm_init: the memory map is a list of entries, and the fuel of its loop over
--   an entry's pages is the number of the last page and 1, which Pmm/Start shows to be enough,
--   since each round adds a page; Pmm/Regions follows its loop over the entries and Pmm/Ready the
--   state it leaves.
-- - Vfs (kernel/main/fsm/vfs.c): the registry and the mount table as lists, the calls through a
--   mount in Vfs/Calls. The functions of a file system are fields of a record of functions on a
--   type of worlds, `none` for a NULL pointer; a `vfs_mount_t *` that is returned is an index of
--   the table. Vfs/Table treats registration and mounting, Vfs/Route and Vfs/Paths the choice of
--   the mount for a path as the code makes it, and Vfs/Best as the documents have it, with every
--   absolute path below a mount at "/". Log output is left out.
-- - RamFs (kernel/main/fsm/initramfs/ramfs.c): a context is its list of files and the next inode.
--   The buffer for a normalised name is passed in with what the stack held before; a read or write
--   outside of a file's block is `none`. RamFs/Inodes has the invariant of a context, RamFs/Names
--   the normal form of paths, RamFs/Names/Lookup what a path finds, RamFs/Data the reads and
--   writes, and RamFs/Data/RoundTrip what a write leaves. realloc is a parameter, a record of one
--   function with a state; its documented behaviour is the hypothesis Resizes.
-- - Initramfs (kernel/main/fsm/initramfs/initramfs-unpacker.c): the archive in memory is the
--   string of the bytes from its base on, and pointers are addresses, whose alignment align4
--   tests. The loop's body is in two parts, read_entry and install; install goes through the
--   calls of Vfs/Calls. Initramfs/Numbers has the header's numbers, Initramfs/Bounds how far the
--   loop reads and that it ends, Initramfs/Archive and Initramfs/Unpack an archive as a writer
--   makes it and its reading, and Initramfs/Placed the calls that are made for a member.
--   initramfs_init, which finds the archive among the boot modules, is not modelled.
-- - Sched (kernel/main/cpu/sched.c): the array of tasks is a function of the index, and a pointer
--   to a task its index; the frames on the stacks are a function of their address. The pool that
--   gives the stacks is a parameter. Sched/Ring has the ring of tasks, the abstract state,
--   Sched/Spawn what spawning does to it, Sched/Rounds what the timer's ticks do. A tick gives the
--   rsp that it loads; the pops of the registers behind it are the processor's.
-- - Vmm (kernel/main/mm/vmm.c): page tables in a physical memory of 64-bit words, known by their
--   physical addresses, with the allocator of Pmm; the links that the allocator keeps in free
--   pages are not words of this memory. `none` is the kernel halting for want of a page.
--   Vmm/Words has the fields of entries, Vmm/Walk a level of the walk, Vmm/Translate and
--   Vmm/Unmap what an address translates to after map_page and unmap_page.
-- - Elf (kernel/includes/main/util/elf/elf.h): the structures of ELF files read from the bytes of
--   a flat memory, Elf/Bytes the numbers in it.
-- - Symbols (kernel/main/module/ksym.c and modsym.c): the tables of symbols, with the addresses
--   of the kernel's functions and the two allocations of push_sym as parameters. A table keeps the
--   bytes that realloc was asked for, whose product is taken modulo 2^64; Symbols/Table has the
--   lookups and the growth.
-- - Modload (kernel/main/util/elf/elf_loader.c: elf_load_module; kernel/main/module/modsym.c:
--   modsym_register): the layout of sections and the relocations, and in Modload/Load the whole of
--   the loader, through the calls of Vfs, the copies of Memory and the tables of Symbols; malloc
--   and free are parameters. A name that has no terminator is cut at the file's size.
--   Modload/Layout, Modload/Relocate and Modload/Errors have the theorems.
-- - Exfat (fs/exfat/exfat.c): the entries of the allocation table and of directories. The driver
--   of the device is a record of functions on its states, and the page for a buffer is one that
--   palloc gives and pfree takes. The fuel of the walk to a directory entry is its index and 1,
--   enough since a round passes at least one entry. Exfat/Disk says what is relied on of a
--   device; Exfat/Fat and Exfat/Dir relate what is written to what is read. Exfat/Seek has
--   exfat_seek, whose fuel is the distance and 1, enough since a round that goes on passes a
--   cluster of at least one byte. Exfat/Read has exfat_read, whose buffer is a list of the bytes
--   that it stores; its fuel is the bytes to read and 1, enough since a round copies at least
--   one. Exfat/Content has the bytes of a file, Exfat/Enter and Exfat/ReadLoop follow the loop,
--   and Exfat/ReadAt a seek and a read as exfat_vfs_read calls them. Exfat/Bitmap has the bitmap
--   of clusters and the freeing of chains, and Exfat/InUse the bits after one is changed.
--   Exfat/Allocate has exfat_allocate_cluster, with the clusters of the bitmap to look at as
--   fuel, since a chain of them may be a ring; to read a cluster past the scratch page is `none`
--   too. Exfat/FirstFree and Exfat/Lowest have the search in the first of them.
-- - ExfatVfs (fs/exfat/exfat_vfs.c): the cache of inodes and the reading of a file; a handle has
--   the fields that reading uses. ExfatVfs/Cache has the cache, ExfatVfs/Read the read of a
--   cached file.
-- - Endian (kernel/includes/main/util/endian.h): the changes of byte order, as sums of quotients
--   and remainders. Endian/Swap compares them with numbers read from memory.
-- - Printf (kernel/main/util/print/kprintf.c: vsnprintf): the output is the bytes stored and the
--   room that is left, an argument the value of its type, and the format the list of the bytes
--   from it on, which may go past its terminator. An outcome tells a finished call from one that
--   reads a missing argument or byte and from the end of the fuel, which is the length of the
--   format and 1. Printf/Emit has the text that a conversion sends, whatever the room,
--   Printf/Format the whole format, and Printf/Digits the numbers. The conversion `f` is not
--   modelled.
-- - Convert (kernel/main/util/util.c: itoa, atoi, atol), with Convert/Decimal and
--   Convert/RoundTrip.
-- - Kprintf (kernel/main/util/print/kprintf.c: kprintf): the terminal is the list of the bytes
--   sent to it; Kprintf/Low follows the values that are printed.
--
-- Loops. The loops over lists recur on the list; palloc_order and the merging of pfree_order
-- recur on the orders that are left, as many as the source's loops have, so that there is no fuel
-- to run out. unpack_from runs on fuel: each round passes a header of 110 bytes, and unpack_cpio
-- gives it two rounds more than the archive has bytes, which is always enough.
--
-- Not modelled: the boot protocol and interrupts, the drivers, the loading of programs, the rest
-- of exFAT (names, new files, writing), the terminal and the serial line, numbers with a
-- fraction, and the copies of other projects' libraries (the TLSF heap, flanterm, the Limine
-- headers).
pub mod Base
pub mod Memory
pub mod Text
pub mod Vfs
pub mod RamFs
pub mod Initramfs
pub mod Pmm
pub mod Sched
pub mod Vmm
pub mod Elf
pub mod Symbols
pub mod Modload
pub mod Exfat
pub mod Endian
pub mod Printf
pub mod Convert
pub mod Kprintf
pub mod ExfatVfs
