-- ===== src/Lib.antt =====
-- A model of the JOS kernel of the repository (lab 4), with theorems on its core: memory,
-- environments, scheduling, system calls, traps, the lock, the console, and the library that the
-- kernel and the user programs share.
--
-- The program. kern/pmap.c hands out physical pages and keeps two-level page tables; kern/env.c keeps
-- the table of environments (processes), each with a page directory; kern/sched.c picks the next
-- environment; kern/syscall.c serves the calls of the current one; kern/console.c buffers input.
-- All of it works on global variables, and functions of one file call those of the others. lib/ has
-- formatted output and strings, which kernel and programs both use, and fork and IPC, which programs
-- build from system calls.
--
-- The files.
--   Base       shared names, Boolean tests, bit lemmas, arrays, linked lists through an index array
--   Memlayout  inc/mmu.h, inc/memlayout.h, inc/types.h: addresses and constants
--   Kernel     the global state as one record, and the monad of kernel code
--   Pmap       kern/pmap.c and kern/pmap.h; Pmap.UserMem has user_mem_check, Pmap.Boot the boot-time
--              part and kern/entrypgdir.c
--   Env        kern/env.c
--   Elf        inc/elf.h; Icode has the loader of programs in kern/env.c, and Boot has boot/main.c
--   Sched      kern/sched.c
--   Destroy    env_destroy of kern/env.c and user_mem_assert of kern/pmap.c, which schedule
--   Console    the input buffer of kern/console.c;
--              Console.Screen has cga_putc, Console.Keyboard the scan codes, Console.Cprintf
--              kern/printf.c, and Console.Readline lib/readline.c
--   Syscall    kern/syscall.c
--   Trap       kern/trap.c: trap, trap_dispatch, page_fault_handler
--   Descriptors  the segment and gate descriptors of inc/mmu.h, with trap_init of kern/trap.c
--   Spinlock   kern/spinlock.c, for several processors at once
--   Printf     lib/printfmt.c and lib/printf.c
--   Kdebug     kern/kdebug.c
--   Monitor    runcmd of kern/monitor.c
--   Mpconfig   the tables of kern/mpconfig.c and what mp_init makes of them
--   User       lib/fork.c, lib/ipc.c and lib/pgfault.c, and user/dumbfork.c
--   Strings    lib/string.c
--   Examples   the theorems at one small machine
-- A function of the model has the name of its C function; where a loop or a branch of a C function is
-- a function of its own, a comment names the part. An operation takes the state and returns a `Run`:
-- a result with a new state, or one of the ways in which kernel code does not return.
--
-- Representation. A pointer into pages[] or envs[] is an index and NULL is `none`; a kernel pointer
-- to a page is its frame number; memory is an array of frames of 1024 words. Machine integers are
-- natural numbers with the wrap-around written out; an int result is its 32-bit word. Device input is
-- a list of values in the state.
--
-- Fuel. search_loop gets one round more than the NENV slots, check_loop two more than the pages below
-- the end of the range; each round goes one slot or one page on, so both are enough. The other loops
-- count a number of rounds that the C code fixes before it starts.
-- stab_binsearch gets two rounds for each entry of its region and two more, and printnum 64 steps,
-- one for each bit of the number. The rounds of ipc_send, strcpy and strcat are parameters, since
-- they depend on the receiver and the string. The loop of readseg gets two rounds more than there
-- are whole sectors in the segment, and one more to find the end.
--
-- Not modelled: hardware set-up and port I/O, the assembly trap entry, what the messages of the
-- kernel and the commands of its monitor say, the self-tests check_* of kern/pmap.c, and the
-- programs under user/ other than dumbfork, which are tests. But for the model of the lock itself,
-- one processor runs kernel code at a time, as under the kernel lock. The user library stands on a
-- record of system calls, whose laws are what kern/syscall.c documents, and takes from the model of
-- the kernel only the tests of its arguments.
pub mod Base
pub mod Elf
pub mod Boot
pub mod Memlayout
pub mod Kernel
pub mod Pmap
pub mod Env
pub mod Sched
pub mod Destroy
pub mod Console
pub mod Syscall
pub mod Trap
pub mod Icode
pub mod Descriptors
pub mod Spinlock
pub mod Printf
pub mod Kdebug
pub mod Monitor
pub mod User
pub mod Mpconfig
pub mod Strings
pub mod Examples
