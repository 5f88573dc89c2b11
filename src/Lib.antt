-- ===== src/Lib.antt =====
-- A verification library for nju-os-workbench: operating-system course work in C.
--
-- The parts of the program are independent programs, a small C library, and an abstract machine.
--
-- M2-libco/co.c, the coroutine library, is Libco. Libco/Store has the blocks (`struct co`) at
-- addresses of a heap and the three globals, with a run that ends in a result, in a failed
-- `assert`, in a use of a bad pointer, or by using up the random numbers. Libco has the operations
-- under the names of the source: insert_co, remove_co, random_select_co, co_start, co_yield,
-- co_wait, init and fini. `finish` is `wrapper` behind the return of the coroutine's function;
-- `select_ready` and `switch_from` are the two halves of co_yield. The library cannot see the code
-- of a coroutine's function: such code may at any time call the library or return, so that an
-- operation takes the system from one piece of such code to the next, which may belong to another
-- coroutine. A saved context with its stack is therefore a `Place`: in such code, in the loop of
-- co_wait on some coroutine, or behind the last call of `wrapper`; `go_on` goes on from there.
-- Libco/Chain and Libco/Unlink are about the linked list, Libco/Sound about the states and waiters
-- of the coroutines by themselves, Libco/Invariant joins the two into the invariant of the system,
-- and Libco/Switch, Libco/Actions, Libco/Wait, Libco/Finish and Libco/Start are about the
-- operations, and Libco/Reach about any sequence of them.
--
-- abstract-machine/klib, the C library of the abstract machine, is Klib, over byte memory.
-- Klib/Strings is src/string.c, Klib/Stdlib is src/stdlib.c with ROUNDUP of include/klib-macros.h
-- and `memmove`, which allocates, and Klib/Stdio is vsprintf and printf of src/stdio.c. The modules
-- below them say what the functions do.
--
-- M6-fsrecov, which recovers bitmaps from a FAT-32 image, is Fsrecov, over the same byte memory.
-- Fsrecov/Entry has the entries of fat32.h and the predicates on them, Fsrecov/Disk what `main`
-- reads of the header and first_byte_ptr_of_cluster, Fsrecov/Scan `handle` and search_cluster,
-- Fsrecov/Match match_entries and full_scan. The state is the memory, the two arrays of waiting
-- entries and the list of the files given to outprint. Fsrecov/Predicates and Fsrecov/Bounds are
-- about single entries and clusters, Fsrecov/Header about the header, Fsrecov/Groups about the
-- entries of one cluster; Fsrecov/Waiting, Fsrecov/Searching, Fsrecov/Image and Fsrecov/Matching
-- follow a whole scan.
--
-- M3-gpt is Gpt: the pool of threads of gpt.c that computes the matrix products. Gpt/Pool has the
-- ring buffer and the globals under their names, the places of a worker and of the main thread, and
-- a step for each critical section, without a word on who sleeps; `main_step` and `call` are
-- matmul_forward, `finish` the end of main. Gpt/Wake adds who sleeps in cond_wait and whom a
-- cond_broadcast wakes, and Gpt/Asleep and Gpt/Turning why each sleeper waits for something. Gpt/Queue is about
-- what the jobs add up to for any weight of a job, Gpt/Invariant the invariant, Gpt/Producer and
-- Gpt/Consumer about the steps, and Gpt/Run about runs of any number of threads in any order;
-- Gpt/Potential, Gpt/Progress and Gpt/Returns are about the end of a call. There `calc` on the
-- memory is a parameter; Gpt/Calc is the one of gpt.c, with the jobs that matmul_forward makes,
-- over an array of floats with any operations. Gpt/Rows is about one job, Gpt/Jobs about the list
-- of them, and Gpt/Product about the matrix that a run leaves behind. Gpt/Sample is sample_mult and
-- the choice of the tokens in `main`, with `float` and the forward pass as parameters.
--
-- M1-pstree is Pstree: reading /proc, the tree of processes and its printing. Pstree/Insert and
-- Pstree/Build are about the children in the tree, Pstree/Print is print_tree as the lines printed.
--
-- M5-sperf is Sperf: extract, update_stats, output and the loop of parent_process, over a record of
-- the operations of `double`. Sperf/Stats and Sperf/Totals are about the statistics, Sperf/Parent about
-- the loop and what is printed, Sperf/Child about the environment of strace.
--
-- M4-crepl is Crepl: write_to_file, compile_to_share, load_and_output and the loop of `main`, over
-- a record of what they call (Tools). Crepl/Toolchain has the laws of the compiler and of the
-- loader, what may fail (Fate), and a reference without files, in which the variables of the
-- libraries are a state; Crepl/Names is about the names, Crepl/Rounds about one line and
-- Crepl/Session about a session.
--
-- abstract-machine/am/src/x86/qemu is Machine, for 64 bits. Machine/Vme is vme.c: the page tables in a
-- memory of words, with what pgalloc returns as a list of pages; `map_page` is `map`. Machine/Vme/Entries
-- says what the tables tell of an address, Machine/Vme/Owners gives each table its place in the tree,
-- Machine/Vme/Walks and Machine/Vme/Ptwalk are about ptwalk, Machine/Vme/Leaves about a write to an
-- entry, Machine/Vme/Spaces puts them together for `as->ptr`, and Machine/Vme/Mapping is about map.
-- Machine/Cte is __am_irq_handle, kcontext and ucontext, with an interrupt as a function of the frame
-- and the handler; Machine/Idt is cte_init with IRQS of ../x86.h.
--
-- Of the devices, Machine/Ports has port input and output with what the ATA standard says of the
-- drive behind some of the ports, and Machine/Ports/Ata a drive that does just that. Machine/Disk
-- is disk_blkio of ioe.c, with Machine/Disk/Waiting, Machine/Disk/Words, Machine/Disk/Spans and
-- Machine/Disk/Blocks about its loops and Machine/Disk/Rounds about a write and a read;
-- Machine/Boot is boot/main.c, which reads the disk in the same way, with Machine/Boot/Copying,
-- Machine/Boot/Loading and Machine/Boot/Segments about copy_from_disk, load_program and the loops
-- over the program headers. Machine/Gpu is gpu_fbdraw, Machine/Timer the clock with the loops
-- around it, Machine/Input the keyboard, with scan code set 1 row by row in Machine/Input/Layout,
-- Machine/Ioe the serial port and the table of handlers with ioe_init, Machine/Apic the two
-- interrupt controllers, and Machine/Trm the table of the processors, the heap and `halt` of trm.c;
-- the modules below each are about it. What a device does is in a record of hypotheses (IsDrive,
-- IsClock, IsController, IsIoapic) that the theorem takes; its test has a device that meets them.
--
-- Bounds and fuel. The loops over C strings run on fuel, and the theorems give one unit for each
-- byte and the terminator. The formatter runs on fuel for each byte of the format, the digits of a
-- number on fuel above the number. The loop of co_yield takes one number of a given list of random
-- numbers per round, and the other loops of the coroutine library run on fuel that is computed from
-- that list or from co_num. The loop of search_cluster has fuel for each 32 bytes of the cluster.
-- Numbers of type int in fsrecov.c are 32-bit patterns, pointers work modulo 2^64. The polls of the
-- disk and of the local APIC and the loops of the clock run on fuel, and the theorems give the disk
-- one unit more than its status is busy and the clock two rounds; the loop of copy_from_disk has
-- fuel for each sector of the bytes, the one over the table of the processors for each 8 bytes of
-- it. The allocator works modulo 2^64, characters are signed. Of what C leaves undefined, atoi
-- takes an overflow modulo 2^32, and the indices of gpt.c, which are int, have no bound.
--
-- Not modelled: L0-hello, kernel and the rest of the abstract machine: 32 bits, the native one and
-- that for NEMU, and for QEMU mpe.c, the segments, and in ioe.c gpu_memcpy and gpu_render;
-- klib/src/int64.c, a copy of compiler-rt, and klib/src/cpp.c, stubs for C++. What `malloc` and
-- `rand` return to the coroutine library are parameters; the switch of stacks is the change of
-- place. Of fsrecov.c, mmap, the temporary file, sha1sum and the debugging output; a read outside
-- of the image is a fault where a cluster number or a length from the image leads there. Of gpt.c,
-- the layers, of which matmul_forward alone uses the pool, and thread.h and thread-sync.h: a mutex
-- and a condition variable are those of POSIX. Of pstree.c, the messages and the option -n, which
-- only prints one; a `malloc` that fails. Of sperf.c, the processes and the pipe between them; the
-- doubling of the capacity beyond an `int`.
pub mod Crepl
pub mod Base
pub mod Klib
pub mod Libco
pub mod Fsrecov
pub mod Pstree
pub mod Gpt
pub mod Machine
pub mod Sperf
