-- ===== src/Lib.antt =====
-- bin_tools is a linker for ELF and PE files, a loader, a disassembler, a patch tool for binary
-- files and a build tool, on a small runtime of its own: an allocator, strings, a hash table and a
-- pool of threads. The linker reads object files into lists of sections and objects, resolves
-- symbols through hash tables, lays the sections out and writes the file; the build tool parses a
-- makefile into rules and variables, which it keeps in the runtime's hash table; the disassembler
-- prints what the emulator has decoded. All of them take their memory from the allocator.
--
-- The modules and the code that they model:
-- Memory models the bitmap of a page in src/core/memory/__alloc.c. `find_loop`, `set_loop` and
--   `unset_loop` are the loops of slowest_find_consecutive_bin, set_bin and unset_bin with all
--   their 8-bit variables; `block_in_page` is the part of __malloc that works on one page, and
--   Memory.Heap the list of pages with mem_init, __malloc, expand_heap and __free.
-- Link.Hash models elf_hash, sysv_hash and gnu_hash of src/core/link/hashtable.c.
-- Link.DtHash models add_dt_hash_entry and sysv_lookup of the same file. The table is an array of words
--   with `nbucket` at word 0 and `nchain` at word 1, as in memory.
-- Link.Section models the lists of src/core/link/section.c and src/core/link/object.c, and the packed
--   index of a section.
-- Link.Read models the callback of src/core/link/elf/callback.c for the section headers of an object.
-- Link.Symbols models the chains of src/core/link/elf/symbol.c and Link.Layout the addresses that
--   src/core/link/elf/reloc.c and src/core/link/coff/callback.c give to sections.
-- Link.Dynamic models the tables and the entries of src/core/link/elf/dynamic.c; Link.GnuHash its GNU
--   hash table, together with the lookup in src/core/link/hashtable.c.
-- Link.Reloc models the relocations of src/core/link/elf/reloc.c, on the memory of the objects and the
--   tables of Link.Dynamic.
-- Link.Import models the import directory of src/core/link/coff/import.c, and Link.Coff the relocations
--   of src/core/link/coff/reloc.c with the functions of DLLs of src/core/link/coff/symbol.c.
-- Link.Emit models the headers and the contents of the file that src/core/link/elf/emit.c writes with the
--   defaults of src/tools/zld.c, on any file with a position.
-- Link.Export models the export directory that src/core/link/coff/export.c writes, its length as
--   src/core/link/coff/callback.c counts it, and the search of src/core/objectfile/coff_pe/read_pe.c in it.
-- Link.Pe models the executable that src/core/link/coff/emit.c writes; Link.Files has a file to test both
--   writers on.
-- Log models the formats of src/core/log/logger.c.
-- Std.Text, Std.HashTable, Std.Queue model src/core/std/string.c, src/core/std/hash_table.c and the
--   queue of src/core/std/thread.c.
-- Build.Makefile models every handler of src/core/build/parse_makefile.c and its loop. A state is the
--   context and a record of the text in memory, the current string, the variable, the rules, the
--   trims and the calls of hash_set.
-- Asm.Names, Asm.Opcode model the names and the opcode table of src/core/asm/x86/disasm.c.
-- Tools.Hex models itoh of the disassembler and ascii_to_bin of src/tools/bipatch.c.
-- Tools.Patch models read_patch, apply and apply_patch of src/tools/bipatch.c on lists of bytes.
-- Base models numbers, lists, strings and bit operations that the others share.
--
-- How the code is read: a byte or a word is a natural number, and every operation that can wrap
-- around writes its remainder; a mask that is shifted by one bit at a time is its exponent; a
-- pointer into an array or a text is an index; a linked list is the list of its nodes. The loops
-- of the allocator have fuel 257, one more than the 256 values of their counters, and the walks
-- along a hash chain have as much fuel as the table has entries and one more; the theorems say
-- when that is enough. The walks of the GNU hash table and over a string have the fuel that the
-- theorem asks for, and the digits of a number in the log have the 7 places of its buffer. The
-- fuel of the patch tool is one more than the bytes of the input and the edits; its reader has
-- room for 128 edits and 4096 bytes of theirs, as the mappings have, the array of the allocator
-- has 85 pages, and the buffer of itoh 14 digits: what leaves them is an outcome of its own. The
-- other loops recur on a list, on a number of bytes, or on a number of digits.
--
-- Not modelled: system calls, files, logging and printing; the grammar that Bison generates;
-- variable resolution of the build tool, which is a parameter of Build.Makefile; interleavings
-- within one call on the task queue; the writer of object files, packed ELF files and the
-- readers of object files; the older function `resolve` of the ELF relocation, which nothing
-- calls; the contents of memory that the allocator hands out, which is a parameter.
pub mod Asm
pub mod Base
pub mod Build
pub mod Link
pub mod Log
pub mod Memory
pub mod Std
pub mod Tools
