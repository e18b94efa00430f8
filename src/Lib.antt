-- ===== src/Lib.antt =====
-- Verification of the core data structures and the terminal line discipline of the Asterisk kernel.
--
-- Asterisk is a small operating system for i386. Its kernel (kernel/) keeps almost all of its state
-- in three containers: a byte ring (kernel/fifobuffer.c), a table from numbers to numbers
-- (kernel/hashtable.c) and doubly linked lists with a stack and a queue over them (kernel/list.c).
-- The terminals (kernel/ttydev.c) join a master, the screen and the keyboard, to a slave, the
-- programs, through three byte rings and a line buffer. These parts, the kernel heap, the choice of
-- the next thread, signals, the page memory and the open files of a process are modelled here.
--
-- Base: names of the library, Boolean tests, lists read as C arrays, and the conversion of an
--   unsigned 32-bit number to a signed one. Machine numbers are natural numbers; every addition and
--   subtraction that can leave 32 bits has its remainder written out.
--
-- FifoBuffer: `struct FifoBuffer` and each function of kernel/fifobuffer.c under its own name. A
--   function that changes the buffer returns the new one; the bytes at a pointer are a list. The
--   loop of fifobuffer_enqueue_from_other runs on as much fuel as the source holds bytes, which is
--   enough. FifoBuffer.Contents has the list of bytes that a buffer stands for, FifoBuffer.Script
--   a bounded queue as its specification.
--
-- HashTable: `DataItem`, `HashTable` and each function of kernel/hashtable.c. The probe of
--   HashTable_search_internal runs on the capacity as fuel, since it ends when it is back at its
--   first cell. What kmalloc returns for the cells is an argument of hashtable_create.
--
-- NodeHeap, LinkedList: a heap of list nodes, commands that can fault on it, and the functions of
--   kernel/list.c as such commands, pointers and aliasing included. An allocating function takes
--   the fresh address that kmalloc returned. Walks run on fuel, and more fuel than nodes is enough.
--   LinkedList.Chain says when a heap holds a doubly linked list of given nodes.
--
-- Tty: `struct TtyDev` and kernel/ttydev.c: Tty has the device, the flags of kernel/termios.h and
--   master_write, one definition for each part of its loop; Tty.Programs has slave_write, and the
--   reads of both ends as one try of their loops, since a blocked read tries again when woken;
--   Tty.Control has slave_ioctl. The
--   calls into other parts of the kernel (signals, wake-ups, the callback of the screen) are a list
--   of events. Locks are taken around each function, so each is one step. A store outside the line
--   buffer leaves none of it.
--
-- Message: kernel/message.c, the message queue of a thread over a FifoBuffer, with messages as sixteen
--   bytes; Message.Mailbox has the bounded queue of messages that it stands for.
--
-- Spinlock: kernel/spinlock.c; Spinlock.Exclusion has the interleavings of threads that share a lock
--   as a step relation.
--
-- Pipe: kernel/pipe.c, one pipe over a FifoBuffer with its lists of threads; a blocking read or write
--   is one try of its loop. Pipe.Flow runs sequences of calls, Pipe.Broken is about closed ends.
--
-- CString: the strings of kernel/common.c, on the bytes that may be accessed from a pointer on, with an
--   access beyond them as a result of its own. CString.Numbers has atoi and itoa, whose loops run on
--   ten rounds, since a number of 32 bits has at most ten digits; CString.Printf has sprintf and its loop over the format,
--   where `capacity` is how many bytes the buffer has and `size` the size that the caller gives.
--
-- KernelHeap: kernel/alloc.c, kmalloc and kfree on the headers in memory, the size wrapping round at 32
--   bits as it does there. The page frames still to be had are an argument. The search takes a round
--   for each chunk and at most two for new pages, so more fuel than chunks is enough; the merging
--   loop takes at most one for each chunk.
--
-- Scheduler: the threads of kernel/process.c as a list, the search of look_threads, and in
--   Scheduler.Signals the sending of signals and what schedule and process_destroy do to the threads.
--   What select_update does with a thread and the time are parameters. Scheduler.Fair follows
--   the turns through rounds in which the threads may change in any way. Scheduler.Sleep has kernel/sleep.c.
--
-- PageMemory: the bitmaps of kernel/vmm.c and the macros of kernel/vmm.h. The search for a free page
--   frame runs over the bytes of the bitmap that are left. PageMemory.Ownership has the sequences of
--   calls that may follow the start. PageMemory.Tables has page directories and tables as memory,
--   PageMemory.Mapping the pages of a process; the searches run on the pages that are left.
--
-- Files: the descriptors of a process of kernel/process.c, and the opening, closing, stat and
--   registration of file systems of kernel/fs.c; what a driver does with a file is a parameter.
--
-- Paths: fs_resolve_path, fs_get_node and fs_finddir of kernel/fs.c for absolute paths. Both loops run on
--   the length of the path as fuel, which is enough since each round takes a byte of it. What a
--   directory answers to a name is a parameter. Paths.Names has the names of a path and where they lead.
--
-- SharedMemory: kernel/sharedmemory.c over the page memory, with the list of objects and their mappings as the
--   state. A pointer is a number, and an access to a freed object a fault. SharedMemory.Counts has
--   what is held up to its order, SharedMemory.Newly the page frames that a call has taken,
--   SharedMemory.Ownership the sequences of calls and what the others hold.
--
-- Sockets: kernel/socket.c and kernel/unixsocket.c, with the list of sockets, the sockets and the threads to
--   wake as the state. accept, connect, send and recv are one try of their loops; what fs_open_for_process
--   comes to is an argument. Sockets.Steps has the sequences of calls.
--
-- Not modelled: FatFs and its tables, the C library and the programs of the user, assembly, and
-- drivers that only drive ports. The program break, the names of pipes, the making and destroying of
-- page directories, relative paths and the path of a node, the creation of processes and
-- system calls are not modelled either.
pub mod Base
pub mod FifoBuffer
pub mod HashTable
pub mod NodeHeap
pub mod LinkedList
pub mod SharedMemory
pub mod Sockets
pub mod Tty
pub mod Message
pub mod Spinlock
pub mod Pipe
pub mod CString
pub mod KernelHeap
pub mod Scheduler
pub mod PageMemory
pub mod Files
pub mod Paths
