-- ===== src/Lib.antt =====
-- Verification of parts of the kernel under workshop/, a 32-bit x86 teaching kernel in C.
--
-- Base            Shared names, list lemmas, Boolean tests. Base/Word: machine words, the outcome of
--                 code that asserts (ok, panic where an ASSERT or PANIC stops the machine, hang where
--                 a loop has used up the rounds that the model allows), and Returns, total
--                 correctness. An int is held as its 32-bit pattern, -1 as 2 ^ 32 - 1.
-- Bitmap          workshop/lib/kernel/bitmap.c. The bytes behind a bitmap are part of the model, since
--                 the code reads there. The loops recur on the rounds left. Bits, Set, Scan and Run
--                 prove the operations, Faults shows where they go wrong.
-- String          workshop/lib/string.c over a memory of bytes. A loop that stops at a zero byte takes
--                 fuel; more fuel than the string has bytes is enough. char is signed.
-- Interrupt       The interrupt flag of workshop/kernel/interrupt.c.
-- KernelList      workshop/lib/kernel/list.c over next and prev pointers. Chain says which sequence of
--                 nodes a list stands for; Insert, Remove and Loops prove the operations.
-- Thread          The scheduler of workshop/thread/thread.c and the clock interrupt of
--                 workshop/device/timer.c. The ready queue is the sequence that KernelList shows
--                 list.c to keep. Queue states the invariant; Schedule, Steps and Timer prove it
--                 kept.
-- Sync            The semaphores and locks of workshop/thread/sync.c, as steps of the threads that share
--                 a lock. What a thread does between two places where it may be switched away with the
--                 lock half taken is one step (Sync/Steps); the assignments of lock_acquire behind
--                 sema_down, and those of lock_release before sema_up, are one step each.
-- IoQueue         The ring of bytes of workshop/device/ioqueue.c, over the scheduler. Ring: it is a queue
--                 of at most 63 bytes. Wait: what ioq_wait leaves.
-- Keyboard        The interrupt handler of workshop/device/keyboard.c, which puts its characters in an
--                 io queue.
-- Format          itoa and vsprintf of workshop/lib/stdio.c, over the memory of String. Each digit of
--                 itoa takes one round; ten rounds are enough for 32 bits in base 10 or 16.
-- Memory          Pools, virtual addresses and the page table of workshop/kernel/memory.c, on Bitmap.
--                 Each bitmap has a memory of its own: a scan for one bit stays in its bitmap, so the
--                 bitmaps that stand behind one another in memory do not meet through palloc.
--                 Memory/Init: how mem_pool_init divides the memory. Memory/Arena: the block
--                 descriptors of sys_malloc and the cutting of a page into blocks.
-- Shell           cmd_parse of workshop/shell/shell.c, over the memory of String. A round of its loops
--                 goes over a byte of the line at least, so that more rounds than bytes are enough.
-- Disk            ide_read and ide_write of workshop/device/ide.c over the bytes of a drive.
-- Fs              workshop/fs. Inodes: inode.c over the drive. Files: the file table and the
--                 descriptors of file.c and fs.c. Bitmaps: the bitmaps of a partition, on Bitmap. Path:
--                 path_parse and path_depth_cnt of fs.c, over the memory of String. Dirs: dir.c, the
--                 entries of directories over the blocks of the drive. Contents: file_read and
--                 file_write of file.c. A round of their loops moves a byte at least, so that as many
--                 rounds as there are bytes are enough. Create: file_create.
--
-- How the parts meet: palloc and vaddr_get call Bitmap's functions; the scheduler's queue is a list of
-- KernelList; list.c guards its writes by Interrupt's functions; sema_down and sema_up call the
-- scheduler's thread_block and thread_unblock, and so do the io queues, so that what is stated of
-- them is over the scheduler's own state; inodes are kept on the drive by Disk's transfers, and open
-- files hold inodes; directories and files read and write the blocks that their inodes name, and take
-- new ones from the bitmap of the blocks.
--
-- Not modelled: the console, the ports of the disk controller, the boot code and the inline assembly,
-- which are input and output; the page directories and stack frames of processes; TLB flushes.
-- The commands of the shell, the file system calls that combine paths, directories and files
-- (search_file, sys_open, sys_mkdir, sys_unlink), and the set-up of the file system are not modelled
-- either.
pub mod Base
pub mod Bitmap
pub mod String
pub mod Interrupt
pub mod KernelList
pub mod Thread
pub mod Sync
pub mod IoQueue
pub mod Format
pub mod Keyboard
pub mod Shell
pub mod Memory
pub mod Disk
pub mod Fs
