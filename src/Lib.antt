-- ===== src/Lib.antt =====
-- Programs of an operating systems course: a five-level page table (hw01), a shell (hw02), a kernel
-- module for messages between processes (hw03), a parallel file search (hw04), two character
-- devices (rec06-devices) and threads that share a counter (rec09-mutex). The parts do not call each
-- other.
--
-- PageTable (hw01). PageTable.Os models hw01/os.c: `nalloc`, the table `pages` and the 64-bit words of
-- memory are the record Os; alloc_page_frame, phys_to_virt and the reads and writes through a pointer
-- act on it. `mmap` is a parameter: a function from the number of the call to an address or MAP_FAILED,
-- which IsMmap supposes not null and each page apart from the others. PageTable.Table models
-- hw01/pt.c: page_table_update is `walk`, then `destroy` or `create` (whose loop is `fill`), and
-- page_table_query is `walk`, then `mapped_page`. Both loops run on fuel, 5 and 6 rounds, which is
-- enough because the level grows from 1 to 6. PageTable.Frames is a tree of page frames without
-- addresses, PageTable.Memory relates it to the words, PageTable.Refine to a map from page numbers to
-- page numbers. Page numbers count modulo 2^45, physical ones modulo 2^52, as the code shifts them.
-- PageTable.Main is `main` of hw01/os.c.
--
-- Shell (hw02). Shell.Process has the system calls and the ways a process ends: `Proc` is the value and
-- the calls made, in order. A record Env holds the answers of the kernel to one command, one of them
-- the result of `fork`, so that one function describes the parent and the children. Shell.Exec models
-- prepare, the four commands and wait_child_process of hw02/myshell.c, Shell.Parse process_arglist,
-- Shell.Words and Shell.Main hw02/shell.c; Shell.Fields says what the words of a line are. Shell.Spec says on lists of words which command is meant
-- and what it does. A process that would access memory behind the array of words, or give execvp NULL,
-- ends as `undefined`; Shell.Defined says when none does. The loop that fills `arglist` runs on fuel, one round more than the line has
-- bytes. A line is what `getline` gives up to its first NUL byte. Messages are left out, and so are
-- `free` and `fflush`.
--
-- MessageSlot (hw03). MessageSlot.Driver models hw03/message_slot.c: `devices`, the nodes by address
-- and the open files are the record Slot. `put_user` and `get_user` are functions that tell which
-- bytes of the caller are writable or readable, `kmalloc` is the result of the one call an ioctl
-- makes, and `register_chrdev` the result of it. The loops over lists run on fuel; more rounds than
-- the list has nodes are enough. MessageSlot.Chain says that an address starts a list of nodes,
-- MessageSlot.View what the slot stores, by device and channel, and which channel a file has chosen.
-- The operations run one at a time. MessageSlot.Programs models hw03/message_sender.c and
-- hw03/message_reader.c as calls of the operations.
--
-- Search (hw04). Of hw04/pfind.c, Search.State models the entries of the two queues by address and the
-- global variables that the queues touch, Search.Queues the operations on them, which run under the
-- mutex `queues_access`. `malloc` is a parameter: an address with what the memory there held. A thread
-- that gives up ends with the value `thread_exits`. Search.Line relates the queue of threads to a list.
-- Search.Scan models scan_dir as one thread runs it alone, with the answers of readdir, stat and opendir
-- as a list of Dirent, one directory at a time: where the code calls itself, next_dir returns the
-- directory to be scanned next.
-- Search.Pool is the search with all of its threads. Search.Pool.Thread has the steps of thread_func and
-- scan_dir, Search.Pool.Program those of main, and run makes them in the order that a list of numbers
-- gives. What stands between the lock and the unlock of a mutex, or a wait on it, is one step, and the
-- queues are lists; paths are left out. The list of directories ends in what the memory from malloc held
-- in `next` of the last entry, and that of threads in what it held in `first`, since the program sets
-- neither: where it is not 0 the program comes to `faulted`. A wait may end without a signal, as an
-- Event of its own. The theorems suppose zeroed memory (ZeroedMemory) and waits that end by a signal
-- (SignalsOnly). A
-- directory is the tree of what readdir, stat and opendir answer. Search.Pool.Invariant has
-- an invariant for each place of main; Search.Pool.Waiting, Searching, Ending and Steps take the steps
-- through it. Search.Pool.Weight counts the steps still to be made where no call fails, from the sizes
-- of the directories; Search.Pool.Better, Closer, Further and Progress are about how a step changes
-- this number.
--
-- CharDevice (rec06-devices). CharDevice.Plain models CHARDEV1/chardev.c and CharDevice.Encrypting
-- CHARDEV2/chardev.c, each a record of the static variables and a function per file operation.
-- CharDevice.Exclusive is the relation of the steps that opens, releases, reads, writes and ioctls
-- make; the spin lock makes an open or a release one step.
--
-- Threads (rec09-mutex). A program is a step function of the shared memory and the local state of one
-- thread; Threads.Schedule runs it for n threads in the order that a list of thread numbers gives, so
-- a statement on every list is one on every interleaving. Threads.Sum has sums over the threads, from
-- which the invariants are made, Threads.Joining the loops of pthread_create and pthread_join.
-- Threads.Locked is mutex_ex2.c (the counter is read and written in two steps, as in
-- cond_var_ex1.c), Threads.Atomic mutex_ex1.c, Threads.Primes mutex_ex3.c, with the numbers printed as a list, and Threads.Condition
-- cond_var_ex1.c, where a thread `system` wakes a waiting thread without a signal. `int` counters
-- count modulo 2^32. The number of threads and of rounds are parameters where the theorems allow it.
-- The loop of is_prime runs on fuel, as many rounds as the number. The calls of the mutex succeed.
--
-- Prelude has the shared names and lemmas, Run the commands on a state, which return, exit, fault or
-- run out of fuel.
--
-- Not modelled: the test programs of hw03, hw01/tester.c, hw02/extra.c and the other
-- demonstrations of the recitations, which print or show single system calls.
pub mod Prelude
pub mod Run
pub mod CharDevice
pub mod MessageSlot
pub mod PageTable
pub mod Search
pub mod Shell
pub mod Threads
