-- ===== src/Lib.antt =====
-- A verification library for JOS, the small exokernel of the directory lab.
--
-- The program: the kernel (lab/kern) gives out physical pages, keeps a two-level page table for
-- each environment, schedules the environments on a CPU and serves their system calls. A program
-- reaches the kernel by `syscall`, which calls the handlers; these call envid2env, page_insert and
-- the like, and sched_yield when the caller has to wait. The programs share a small C library
-- (lab/lib), with pipes in memory that two environments map.
--
-- The files:
-- - Prelude: Boolean tests, conditionals, lists, integers and bit operations over native numbers.
-- - Kern/Machine: the kernel's variables as the record `Kernel` and commands on it (`Cmd`), whose
--   outcome `Run` says if the kernel goes on, panics, enters a program, halts or stops in the
--   monitor; Kern/Machine/Const: the constants of lab/inc.
-- - Kern/Mmu: writes to the addresses that the page tables in use map.
-- - Kern/Page, Kern/Pgdir, Kern/UserMem: lab/kern/pmap.c. Kern/Env: lab/kern/env.c. Kern/Sched:
--   env_free, env_destroy and env_run of lab/kern/env.c, and lab/kern/sched.c. Kern/Syscall:
--   lab/kern/syscall.c. A definition has the name of the C function; a part of a function, as a
--   loop, has a name of its own.
-- - Clib/Str: lab/lib/string.c. Clib/Number: printnum of lab/lib/printfmt.c, strtol of
--   lab/lib/string.c. Clib/Format: vprintfmt and vsnprintf of lab/lib/printfmt.c.
--   Clib/Readline: lab/lib/readline.c.
-- - User/Pipe: lab/lib/pipe.c; User/Pipe/Steps: its two loops, by the accesses to the pipe. User/Fd: fd2num to fd_lookup of lab/lib/fd.c. User/File:
--   lab/lib/file.c, and the calls of lab/lib/fd.c that lead to it; a request is answered by a round
--   of the file server.
-- - User/Fork: lab/lib/fork.c and lab/lib/pgfault.c, on the kernel's system calls. User/Sh:
--   gettoken of lab/user/sh.c. User/Args: lab/lib/args.c.
-- - Kern/Console: the input buffer of lab/kern/console.c.
-- - Kern/Lock: lab/kern/spinlock.c; each access to the lock is a step of one CPU, and `Reach`
--   holds the states that the CPUs reach in any order of their steps. Kern/Debug: stab_binsearch of
--   lab/kern/kdebug.c. Kern/Boot: lab/kern/entrypgdir.c.
-- - Kern/Trap: lab/kern/trap.c, and user_mem_assert of lab/kern/pmap.c.
-- - Fs: lab/fs/fs.c, its blocks; Fs/Dir, Fs/Path, Fs/Data: directories, paths and the contents of
--   files. A block of the disk is words, where it holds block numbers, and bytes, where it holds
--   contents; the file structs are a store of their own, by address.
-- - Fs/Cache: lab/fs/bc.c and the transfers of lab/fs/ide.c, on the kernel's system calls. The
--   other modules of Fs are about a server that has all blocks in memory, where no access faults,
--   and in which blocks with numbers, blocks with contents and the bitmap are apart.
-- - Fs/Serv: lab/fs/serv.c, the server that answers the requests of programs on open files by the
--   functions of lab/fs/fs.c. Its outcome `Outcome` is an answer with the new state, or a panic.
--
-- The correspondence: a pointer to a struct in an array is the index, `none` for NULL; a kernel
-- virtual address of a page is the number of its frame; words are natural numbers with the wrap-
-- around written out; sizes and offsets of files are non-negative as off_t. The page-table loops
-- have as many rounds as the C loops; the loops over strings have fuel, and their theorems ask for
-- more than the length of the string. The walk of a path has its length as fuel, and the loops over
-- contents the count of bytes, since each round passes at least one byte. The search of stabs takes
-- two rounds for each stab at most, since an exact match is made only once.
--
-- A page directory of the program is its own table at UVPT, where it shows the page tables as pages;
-- `IsDir` allows for that, and the theorems on changes of a mapping are about the other addresses.
-- `translate` gives the entry of the page table; whether an access is allowed depends on the entry
-- of the directory as well, which pgdir_walk makes with PTE_U and PTE_W, and which `reach` reads.
--
-- Not modelled: memset and memmove, which are assembly in the program as it is built; other CPUs but in the lock, the devices and the output of the console, boot but for
-- its page directory, spawn, the monitor, and the programs but for the shell's tokens. The
-- arguments of vprintfmt are a list of values in the place of va_list. Parameters: the sectors for
-- which the drive reports no error, and the free blocks in bc_pgfault; the call stack that
-- spin_lock records; the linker's symbols `end` and `_pgfault_upcall`; the console's two calls and
-- the trap frame behind a user pointer in the dispatcher; the answer of _pipeisclosed in the two
-- pipe calls; the pages that are mapped in the descriptor calls, and the calls of the other
-- devices; sys_page_alloc and the counts of pages in the file server; the monitor and the console's
-- interrupts in the trap handlers.
pub mod Clib
pub mod Fs
pub mod Kern
pub mod Prelude
pub mod User
