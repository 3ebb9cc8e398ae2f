-- ===== src/Lib.antt =====
-- A model of the kernel of Xinu for the cMIPS processor (xinu/system and xinu/include), with
-- theorems about it.
--
-- The kernel is a set of tables and the operations on them. `Kernel` (Kernel/State) is the record
-- of the global variables; a table is a function from indices, its size a constant beside it. An
-- operation is a command over that record (Kernel/Command): it ends with a result, faults (an index
-- outside its table), halts, or switches. `ctxsw` is the switch: other processes run, and the rest
-- of the command goes on from the state in which the process is resumed. Interrupts are disabled in
-- an operation, so nothing else interleaves; `disable` and `restore` have no counterpart.
-- `Safe` (Kernel/Guarantee) says what a command promises and may rely on at its switches.
--
-- The files and the code, each function under the name that it has in C:
--   Queue      xinu/system/queue.c, getitem.c, insert.c, insertd.c, newqueue.c and the macros of
--              xinu/include/queue.h. The links in `queuetab` are read as lists of process ids
--              (Queue/Chain, Queue/Table); Queue/Fifo, Queue/Insert and Queue/Delta have the
--              operations on these lists.
--   Sched      resched.c, ready.c, yield.c, sched_cntl.c
--   Semaphore  semcreate.c, wait.c, signal.c, signaln.c, semreset.c, semdelete.c, semcount.c
--   Message    send.c, receive.c, recvclr.c, recvtime.c, sleep.c, unsleep.c, wakeup.c, clkhandler.c
--   Process    create.c, kill.c, suspend.c, resume.c, chprio.c, getprio.c, getpid.c, userret.c, xdone.c
--   Memory     getmem.c, freemem.c, getstk.c and xinu/include/memory.h
--   Bufpool    bufinit.c, mkbufpool.c, getbuf.c, freebuf.c
--   Port       ptinit.c, ptcreate.c, ptsend.c, ptrecv.c, ptcount.c, ptclear.c, ptreset.c, ptdelete.c
--   Device     init.c, open.c, close.c, read.c, write.c, seek.c, getc.c, putc.c, control.c,
--              getdev.c, ionull.c, ioerr.c
--   Init       initialize.c, clkinit.c
--   Date       ascdate.c and the macros of xinu/include/date.h
--   Libxc      xinu/lib/libxc: the functions on bytes and strings; Libxc/Number: atoi.c, abs.c,
--              rand.c and the routines of doprnt.c that write digits
--   Namespace  xinu/device/nam/nammap.c and mount.c
--   Terminal   xinu/device/tty. A line is a record of its own (Terminal/Line): its buffers, the counts
--              of its two semaphores, the bits of the UART's interrupt register and the bytes that
--              have been sent. A call that blocks is a value that holds the rest of the call;
--              Terminal/Trace has the calls and the interrupts in any order, but a writer that
--              has waited goes on before anything else happens.
--   Shell      xinu/shell/lexan.c
-- Invariant holds what is true of the tables between any two steps: a process is on the queue that
-- its state names and on no other, a negative semaphore count is the number of waiting processes,
-- the ready list is in descending order of its keys, the sleep queue is a list of nonnegative
-- delays whose sums an `int` can hold, and at most the current process is in the state PR_CURR.
-- `ready` brings a process into the ready list, `wait`, `suspend` and the sleeping operations take the caller off the processor,
-- and all of them end in `resched`. Examples applies the theorems at a state with all of this.
--
-- Numbers: an `int` is an integer of Base/Int whose results are wrapped to 32 bits, a `uint32` a
-- natural number modulo 2 ^ 32. Sizes are those of xinu/include/conf.h (16 processes, 32
-- semaphores, 8 devices). A loop has a number of rounds as its first argument: a walk of a queue
-- has NQENT, more than the 16 processes that a queue can hold; a search of a table has the table's
-- size; a walk of the free list, whose blocks stand in ascending order, has one for each address up
-- to the end of the heap; the search for the end of a string has one for each address; the walk of
-- the years has 150, and a 32-bit time ends in the year 2106; the loop of `lexan` has 33, and every
-- round but the last finds a token. The memory that the C library works on
-- is a function from addresses to bytes, apart from the words of the kernel's heap.
--
-- Not modelled: hardware access (`clkupdate`, `enable_irq`, interrupt dispatch, the cache),
-- printing, the drivers behind the device switch, which are parameters, as is `panic`, which the
-- repository does not define; the network, the file systems, the rest of the shell, the formats
-- of printf and scanf, qsort and the processor itself.
pub mod Base
pub mod Kernel
pub mod Queue
pub mod Sched
pub mod Semaphore
pub mod Message
pub mod Memory
pub mod Device
pub mod Process
pub mod Bufpool
pub mod Port
pub mod Invariant
pub mod Init
pub mod Examples
pub mod Libxc
pub mod Date
pub mod Namespace
pub mod Terminal
pub mod Shell
