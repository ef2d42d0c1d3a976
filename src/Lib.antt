-- ===== src/Lib.antt =====
-- A verification library of the PS4 emulator: the guest's memory management, the kernel services on top of
-- it, the GPU's command processor, the loader and the linker of programs, and the stubs that stand in for
-- missing system functions.
--
-- The parts and their files, with paths from the repository's root:
-- - Common: numbers, Boolean tests, lists over native numbers, masks as arithmetic (Common/Bits) and signed
--   integers (Common/Int), results (Common/Result), readers of bytes (Common/Reader), and texts as their
--   bytes (Common/Text) with what the standard library takes for UTF-8 (Common/Utf8). It models no code.
-- - Types: crates/common/src/types.rs, the page size and the alignment helpers. Types/Align reads them as
--   arithmetic.
-- - Memory: crates/core/src/memory. Memory/Map is the `BTreeMap` of the standard library as a list in key
--   order. Memory/Physical is physical_memory.rs, the direct-memory allocator: `allocate` takes the first
--   free area that fits (`first_fit`), splits it (`carve_area`) and marks it; `free` marks an area free and
--   runs the merge loop (`merge_adjacent`). Its invariant, that the areas tile the memory, and its abstract
--   view, the state of each address, are in Physical/Tiles; Physical/Allocate and Physical/Refine are about
--   `allocate`, Physical/Merge and Physical/Free about the merge loop and `free`. Memory/MemoryProt,
--   Memory/MemoryMapFlags, Memory/Vma and Memory/Virtual are virtual_memory.rs: the areas of the guest's
--   address space, and `map_memory`, `unmap_memory` and `find_free_region` on them; Virtual/Order has the
--   invariant and the view of each address, Virtual/Carve what `carve_vma` leaves, Virtual/Mapping and
--   Virtual/FreeRegion the operations. Memory/AddressSpace is address_space.rs, the host mappings.
-- - Kernel: crates/core/src/kernel. Kernel/Error is the error codes of mod.rs, Kernel/MemorySyscalls is
--   memory_syscalls.rs, which calls the memory manager and turns its answers into codes, Kernel/EventQueue
--   is equeue.rs, Kernel/Threading is threading.rs and Kernel/FileSystem is filesystem.rs, over a record of
--   what the host answers.
-- - Gpu: crates/gpu/src/liverpool. Gpu/Pm4 is pm4.rs, Gpu/Regs is regs.rs and Gpu/CommandProcessor is
--   command_processor.rs, with its loop in CommandProcessor/Process.
-- - Hle: crates/core/src/hle. Hle/Stubs is stubs.rs (Stubs/Fill the bytes of the region, Stubs/Lookup the
--   addresses, indices and names), Hle/Syscalls is `patch_syscalls` of dispatcher.rs, Hle/ThreadFs its
--   table of FS bases, Hle/Signals its signal handlers as functions on the registers and the memory, and
--   Hle/Bytes is the memory that all of them, and the linker, write through raw pointers. Hle/Exports has
--   the functions of exports.rs on memory and strings, Exports/Strings what `strcat` leaves.
--   Signals/Resumed says how a thread goes on behind a trap, Signals/Composed what becomes of a patched
--   system call and of a call of a stub; Signals/Fault is the handler of SIGSEGV, and Signals/Unwound says
--   where a thread goes on behind a fault.
-- - Loader: crates/core/src/loader. Loader/Symbols is symbols.rs, the registry of exported symbols, and
--   Loader/Nids its table of known names. Loader/Elf is elf.rs: Elf/Types and Elf/Tables the structures,
--   Elf/Read the readers of the headers, Loader/Elf itself `parse`, and Elf/Queries the queries;
--   Elf/RoundTrip, Elf/SelfFile and Elf/Written are about files that were written, Elf/Parse about what
--   `parse` accepts.
-- - Linker: crates/core/src/linker. Linker/Relocation is relocation.rs; Linker/Module and Linker/Load are
--   module.rs, the tables of relocations, the copies of segments and `Module::load`, which calls the memory
--   manager's `map_memory`; Linker/Modules, Linker/Traps and Linker/Start are mod.rs, `load_module`, its
--   patch of eboot.bin, and what is called when all modules are there; Linker/Tls is tls.rs. Linker/Names,
--   Linker/Loaded and Linker/Terminates are about the list of modules, Linker/Inside about where `load`
--   writes, Linker/Relocated and Linker/Linked about what relocations leave, Linker/Patched and
--   Linker/InitArray about the patch and the tables of functions. Linker/Imports follows an import from its
--   relocation to the trap of the call, over the registry, the table of known names, the stubs and the
--   handler.
-- - Formats: Formats/Psf is crates/formats/src/psf.rs, the parser of PARAM.SFO; Psf/RoundTrip, Psf/Written
--   and Psf/Lookup are about files that were written.
--
-- How code becomes definitions. A method on `&mut self` returns the new state beside its answer; state
-- behind a lock is passed on in the same way, one call after the other. A `u64` is a native number below 2
-- ^ 64, and its arithmetic wraps, as in a release build; the theorems say which sums have to stay below 2 ^
-- 64. An `Option` and a `Result` are an `Option` or a Boolean, with the error's text left out; a panic of
-- the merge loop is `none`, and a panic of the loader or the linker an error of its own. The C library is
-- the record `Libc`, of which nothing is assumed. The integer reads of the byteorder crate are the record
-- `ByteOrder`, of which `IsLittleEndian` says what its documentation says; the disk and the paths of the
-- host are records of functions. Trace output is left out.
--
-- Loops are recursion on the list that they walk, but for these: the loop over a command buffer runs on
-- fuel, one round for each word, which is enough since each round moves on by a word at least; the scan for
-- assertion traps runs on fuel, one round for each byte; `load_module` runs on fuel, one more than there
-- are file names on the disk, since each round of its recursion gives a module a name that none had; the
-- loops that fill the stub region, patch `syscall`s, copy strings (the code gives up behind 0x100000
-- bytes), read the entries of a table or call the table of functions count the rounds that are left.
--
-- Not modelled: the time of the kernel (calls of the host), the other exported system functions (most trace
-- and return a constant or call the host; what those answer that return is a parameter of the signal
-- handler, and the two that end the program are in the model), the jump into guest code (assembly), the
-- Vulkan renderer, audio, input and the user interface (calls of host libraries), and the text output of
-- the parts modelled.
pub mod Common
pub mod Types
pub mod Memory
pub mod Kernel
pub mod Gpu
pub mod Hle
pub mod Linker
pub mod Loader
pub mod Formats
