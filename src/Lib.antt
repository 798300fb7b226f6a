-- ===== src/Lib.antt =====
-- xv6-pdx: a verification library for the kernel in xv6-pdx/, as its Makefile builds it: with
-- CS333_P1 and CS333_P2, without CS333_P3P4.
--
-- The parts, and how they interact. A process (xv6-pdx/proc.c) owns a slot of the process table, a
-- kernel stack from the page allocator (xv6-pdx/kalloc.c), and descriptors of open files
-- (xv6-pdx/file.c), some of which are ends of pipes (xv6-pdx/pipe.c). fork() takes a stack and
-- counts references up, exit() counts them down and may close a pipe, which wakes processes and
-- frees the page of the pipe, and wait() gives the stack of a dead child back. The address spaces
-- of processes (xv6-pdx/vm.c) are page tables in pages of the allocator. The file system
-- (xv6-pdx/fs.c) reads and writes blocks through the buffer cache (xv6-pdx/bio.c), whose dirty
-- buffers the log (xv6-pdx/log.c) writes to the disk in transactions; system calls on files
-- (xv6-pdx/sysfile.c) take their arguments from the caller's memory (xv6-pdx/syscall.c) and work on
-- the file system and on open files.
--
--   Base     lists by index over the native numbers, `|` on numbers that share no bit, and the result
--            of code that may panic.
--   CString  xv6-pdx/string.c. Memory has the functions on memory, a function from addresses to
--            bytes, Moves and Compare their laws; safestrcpy() works on buffers as lists, and Names
--            is about it.
--   Kalloc   xv6-pdx/kalloc.c. `Kmem` is the variable kmem with the memory that the free list runs
--            through, by words. Chain has the list as an abstract one, Range the two phases of
--            kinit, Client any sequence of calls by callers that free what they hold.
--   Spinlock xv6-pdx/spinlock.c. Mutex has one lock between processors, in the steps in which
--            others see it, and Nesting pushcli() and popcli().
--   Pipe     xv6-pdx/pipe.c. `Pipe` is struct pipe; Fifo has the ring as a queue of bytes, Calls
--            the two calls, Traffic any sequence of calls.
--   Files    xv6-pdx/file.c: filealloc(), filedup() and fileclose() on ftable.
--   Vm       xv6-pdx/vm.c, in the memory of `Kmem`. User has the user part of an address space.
--            Space says what a sound address space is, Walk and Entry are about walkpgdir(), Map
--            and Mappages about mappages(), Ends and CopyEnds about the loops of all of it.
--   Bcache   xv6-pdx/bio.c, over the disk of xv6-pdx/memide.c. Find is about the loops of bget(),
--            Cached says what the cache and the disk hold together, Calls, Read and Write are about
--            the calls, Refine about any sequence of them.
--   Fs       xv6-pdx/fs.c. `Fs` is the blocks as bread() returns them, by bytes, with the super
--            block and the inodes in memory. The bitmap stands in Fs itself, Icache has the inodes,
--            Content what they hold, Path and Dir names and directories. Bits and Balloc are about
--            the bitmap, Scan and Iget about the table of inodes, PathNames about paths, Logged has
--            the calls of log_write() on the log, Placed,
--            ReadWrite and FileBytes about the bytes of a file, Ends, ReadEnds and WalkEnds about the
--            ends of loops, those of a walk along a path included.
--   Sysfile  xv6-pdx/sysfile.c, and fileread(), filewrite() and filestat() of xv6-pdx/file.c. Names
--            has link(), unlink() and create(), Open the calls on descriptors, Fds what open() does
--            to them. A call that comes to the lock of an inode that is taken is followed up to
--            there.
--   Syscall  xv6-pdx/syscall.c, the calls of xv6-pdx/sysproc.c about the caller, and getproc() of
--            xv6-pdx/proc.c. Args is about the arguments.
--   Ulib     xv6-pdx/ulib.c and xv6-pdx/printf.c. Numbers is about printing and reading a number.
--   Log      xv6-pdx/log.c. `Log` is struct log, `Store` the disk and what bread() returns. Phases
--            has the loops of a commit, Crash what a disk with a log says and the end that commits
--            and recoveries share, Commit and Recovery the two, Space the accounting of blocks.
--   Proc     xv6-pdx/proc.c. Types has struct proc and the table, Table the operations that change
--            the table alone, Kernel the state of the whole machine, Create allocproc(),
--            userinit(), fork() and growproc(), Exit exit() and wait(). Inv states what a
--            well-formed table is, and Keep, Mild, Adopt, AdoptAll, Death, CloseInv and the modules
--            named for an operation are about what the operations do to it. System has the
--            operations as steps in any order. PipeCalls has pipealloc(), pipewrite() and
--            piperead() on the whole kernel, with the wake-ups and sleeps; Wakeups and PipeSystem
--            are about who sleeps on a pipe, PipeAlloc about pipealloc(). Scheduler has the order
--            in which processes get their turns.
--
-- State is passed explicitly: an operation takes and returns the record it works on. A pointer into
-- a table is an index, a null pointer is `none` (or 0 for the address of a page), and panic() is a
-- value of `Outcome`; so is the use of a null or wild pointer. `uint` arithmetic wraps at 2^32
-- where the code can reach it.
--
-- Concurrency. Each function is one step of the machine, up to where it gives up the processor: a
-- function that sleeps is split there, and goes on from the state that it then finds. fork() and
-- exit() hold ptable.lock only in parts; interleavings with other processors inside one call of
-- them are not modelled. Spinlock is about the locks; outside it, locks and interrupts are not part
-- of the state.
--
-- Bounds and fuel. The loop of freerange() runs on fuel, vend / 4096 rounds, which is enough since
-- each round moves by a page; the loops of vm.c over pages run on 2^20 or 2^20 + 1 rounds, the
-- number of pages there are; readi(), writei() and filewrite() on as many rounds as bytes, since
-- each takes at least one; a walk along a path on one round more than its bytes, since each element
-- takes one; printint() on the 16 bytes of its buffer; strlen() and strcpy() run on fuel since a
-- memory need not hold a NUL. The other loops are structural, over the block numbers of the log
-- header, the bytes of a call, the 64 slots of the table or the 16 descriptors. Steps that fork ask
-- that `nextpid` stays below 2^32: the code does not check that a pid is free when it wraps.
--
-- Crashes. A write of a block is atomic, and writes reach the disk in the order of the calls.
-- `writes_left` of a Store counts the writes that the power still lasts for; a theorem for every
-- count is one for a crash at every moment.
--
-- The file system and the buffer cache are one machine each: the calls on one inode or one buffer
-- by several processes interleave at the calls of Bcache, not inside a call of Fs. Bcache gives
-- what `Store` of Log and `blocks` of Fs take as given: an array of blocks, and a disk that lags
-- behind it in dirty buffers only.
--
-- What fs.c and the log say to each other is one way: whether a log_write() panics depends on the
-- log alone, so `logged` of Fs collects the blocks that it is called for, and Fs.Logged runs
-- log_write() of Log on them. The calls of Sysfile leave out begin_op() and end_op(), so `logged`
-- goes on through the transactions of one call. A buffer is released before the call that locked it
-- ends; where bmap() and itrunc() hold one while they call balloc() or bfree(), it is an argument of
-- that call, and the sleep for ever on the very buffer that the caller holds is a panic() of its
-- own.
--
-- Not modelled: Proc takes virtual memory and the inodes (with the transactions around iput()) as
-- the parameter `Services`: total functions of which nothing else is assumed. Of vm.c, loaduvm(),
-- which reads a file into pages, copyout(), which needs memory by bytes, and the functions that set
-- registers of the processor are left out; of syscall.c the dispatch by number; exec(), procdump(),
-- the allocator of umalloc.c, the devices, the boot code, the shell and the other user programs are
-- left out. Devices behind inodes are the parameter `Devsw`.
pub mod Base
pub mod Bcache
pub mod CString
pub mod Files
pub mod Fs
pub mod Kalloc
pub mod Log
pub mod Pipe
pub mod Proc
pub mod Spinlock
pub mod Syscall
pub mod Sysfile
pub mod Ulib
pub mod Vm
