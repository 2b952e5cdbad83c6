-- ===== src/Lib.antt =====
-- A verification library for the assignments of CS 4414 (operating systems).
--
-- The program is a set of small C programs. The library models Asmt_6, a tool that recovers files from
-- a raw file system image, Asmt_4, user-level threads with priorities and mutexes, and Asmt_3,
-- round-robin threads on a linked list, which Asmt_1 has as well. Of Asmt_1 it also has the
-- reading of words, Asmt_2 is a shell, and of Asmt_5 there are the dining philosophers, a producer and
-- a consumer, the matching of whales, and the programs that count what these print. Beyond the lists
-- the assignments have no code in common.
--
-- `Prelude` holds what the other modules share: Boolean tests on the native numbers, lists measured
-- by them, and the signed integers that stand for C's `int`.
--
-- `Recover` (Asmt_6/recover.c, Asmt_6/recover.h).
--   Image: the data file as `mmap` presents it, bytes at absolute addresses. The last page is filled
--   up with zero bytes, and a read of any other address is a fault. An `int` is four bytes, lowest
--   first, in two's complement.
--   Inode: `struct inode`, the reads of its fields (all of them, as `print_inode` makes them), and
--   `check_inode`.
--   Search: `find_inode`, a loop over addresses. Its fuel is one round for each word from the start,
--   and one for the last test.
--   Run: the state that the functions change (`used_block_array`, the open output file, the files
--   that are finished), the environment, and the monad. A run returns, leaves by `exit (-1)`, or
--   faults. Everything that C leaves undefined is a fault: an address outside of the mapping, an index
--   outside of `used_block_array`, the overflow of `BLOCK_SIZE * block_num`, a null string. The one
--   exception is the read of the `int` behind a full `block_buffer`: it yields any value, so that the
--   program's behaviour on a full indirect block can be stated.
--   The environment answers each call of the system by its number: `malloc`, `fopen`, `fork`, `mv`
--   and `munmap` succeed or not, `fwrite` writes some number of bytes. `Benign` (in Copy/Outcome) is
--   an environment that refuses nothing.
--   Copy: `copy_dblock`, `unwind_iblock`, `copy_i1block`. File: the levels of indirection in `main`.
--   File/Spec: what an inode lays out (`file_data`, with what the code does at the last level, and
--   `original`, with what it means to do there). Extension: `guess_file_extension`. Main: the loop over
--   the inodes, on fuel of one round for each word of the file, and the final count.
--   Not modelled: the text that is printed, `open`, `fstat` and `mmap` (an image or none is a
--   parameter of `main`), and `atoi` (`main` takes the two numbers). Images are below 2 ^ 31 bytes in
--   the theorems on copying, since the code computes offsets in `int`.
--
-- `Exec` is the monad of the programs on an explicit heap: a run returns, leaves by `exit`, faults, or
-- has used its fuel up. `Nodes` is a heap of nodes with a `next` pointer, with the loops that copy a
-- list of pointers into a buffer and tie a buffer together, and what they do to chains of nodes.
-- `Counting` compares lists of pointers by how often each occurs. `Qsort` is the contract of the C
-- library's `qsort`: it reorders, and orders by a comparison that is total and transitive. What becomes
-- of equal elements is left open. An insertion sort meets it.
--
-- `Uthread` (Asmt_4/uthread.c, Asmt_4/uthread.h).
--   The static variables are the record `Sched`, the threads a heap of nodes. `malloc` returns an
--   address that the caller gives. The buffer of `uthread_create` has `live_uthreads` entries: to write
--   behind it is a fault, and so is to sort it with entries that were never written. The buffers
--   themselves are always granted. A call of `uthread_yield` yields the state in which the next thread
--   runs; a timer's signal is such a call. `live_uthreads` stays below 2 ^ 31. The loop of
--   `uthread_exit` has fuel `live_uthreads`, which is no less than the number of threads in the circle.
--   Ring: what a well-formed circle is. Create, Yield, Leave: what the calls do to it. Life: the calls
--   after each other, and the last thread. Steps: all the states that the calls lead to.
--   Mutex: the wait queue. A call of `uthread_mutex_lock` is its part with the signals blocked; `await`
--   is the loop that follows, which runs each time that the thread has the processor. The fuel of
--   `uthread_mutex_unlock` is the length of the queue; that of `uthread_mutex_destroy` is given, and the
--   number of records is enough. Queue, Enqueue, Dequeue, Unlock and Destroy are about the queue, Await
--   about the loop.
--   Not modelled: the contexts (`makecontext`, `swapcontext`, `setcontext`), the timer, and the stacks
--   beyond their addresses.
--
-- `LinkedList` (Asmt_3/list_t.c, Asmt_3/list_item_t.c; Asmt_1/list_t.c has the same code without
--   `list_rotate_one`).
--   The items are a heap of nodes, with `prev` and the pointer to the data beside `next`. `compare` is a
--   parameter; what `data_delete` is called on is a result. `length` is an `unsigned int` and wraps
--   around. The fuel of `list_visit_items` is given, and the number of items is enough.
--   Forward: what a well-formed list is, along `next`. Nothing reads the back pointers, and they are not
--   part of it. Ends, Rotate, Sorted: the operations; Tied and Retied: how the sorted items are tied.
--
-- `RoundRobin` (Asmt_3/uthread.c, Asmt_3/thread_t.c).
--   A queue of threads on the list, whose head runs. A call of `uthread_yield` or `uthread_exit` yields
--   the thread that gets the processor. Refinement and Leaving: the calls on a plain queue of threads,
--   which the list on the heap implements. Turns: who runs when. Not modelled: the contexts.
--
-- `Harness` (Asmt_1/harness.c, Asmt_1/list_item_t.c).
--   A file is the list of its bytes; `char` is signed, so that `EOF` is the byte 255. `read_line` with its
--   buffer, and the mode `echo` as the list of the lines that it prints, on fuel of one round for each call
--   of `read_line`: one more than the file has characters is enough (Ending). Modes: the other modes and
--   `main`, on the list of `LinkedList` and a heap of buffers; each round of a loop takes the addresses, and
--   the bytes of the new buffer, from a list of what `malloc` grants. Owned: what memory there is; Showing,
--   Inserting, Filling: the parts of a mode; Tailing, Removing, Reordered and Sorting: the modes. To print
--   or compare a buffer without a null byte is a fault. `cleanup_list` has as much fuel as there are items.
--   Not modelled: the messages before an exit.
--
-- `Philosophers` (Asmt_5/philosophers/philosophers.c).
--   The table: where each philosopher stands in its loop, the states, the chopsticks, and who holds
--   `chopstick_manipulation_lock` and `canEat_mutex`. `act` is the call that a philosopher makes next;
--   `Step` adds that one who sleeps in `pthread_cond_wait` may wake, after a signal or without one, so
--   that the call of `pthread_cond_signal` changes nothing else. Not modelled: the printing under
--   `stdout_lock`, and the times.
--
-- `Prodcon` (Asmt_5/prodcon/prodcon_sem.cpp, Asmt_5/prodcon/prodcon_cv.cpp).
--   The buffer, `pos`, and the terminal's row from the buffer's first column on, which the escape
--   sequences change. Every access to the buffer outside of its `bufferlen` bytes is a fault. Sem: the
--   two threads, one call at a time, with the semaphores and the mutex; `produce` and `consume` are
--   `none` while their thread has to wait. Filled: what the buffer holds and shows. Sem/Stocked and
--   Sem/Moves: what the semaphores count. Cv: how many producers and consumers stand before which call,
--   with the mutexes and condition variables; a signal wakes one thread that sleeps, if there is one, and
--   one may also wake without a signal. Both programs have the same buffer. `bufferlen` is the number that `atoi` gives, and not negative.
--   Not modelled: the times, and where on the screen the row stands.
--
-- `Whales` (Asmt_5/whales/whales.c, Asmt_5/whales/whalesnew.c).
--   The whales are a heap of nodes; `malloc` returns an address that the caller gives, with any
--   contents. `create_male` and `create_female` run up to their first `sem_wait` in one step, and
--   `Passes` is a `sem_wait` that a whale gets through; how many whales wait at which semaphore is part
--   of the state, beside the printed lines, the last one first. Queue, Taking and Joining are about the
--   queues, Pods has two plain lists in their place, and Starting, Matching and Arrivals compare the two.
--   Stuck: the whales that wait for ever. Simple: whalesnew.c, which has counters and no queues. The
--   counters are natural numbers, since the code subtracts from them only where it has seen that they are
--   above 0; their overflow is not modelled.
--   Not modelled: the races between whales inside of the functions, which no lock guards, the times, and
--   Asmt_5/whales/ajrwhales.c, an earlier text that does not compile.
--
-- `Shell` (Asmt_2/shell.c).
--   Allocated memory is a list of cells, empty before the first write to them: to read such a cell, or
--   any outside of the memory, is a fault, and so is a write outside. `strtok` is modelled with its two
--   delimiters. What `realloc`, `fopen` and `fork` grant is a parameter. The loop that reads a line has
--   fuel of one round for each character that is left and one more, which is enough if there is the end
--   of a line; that over the tokens one round for each cell. Reading, Splitting, Storing and Lines: a line
--   on its way to its tokens. Child: the commands and the main loop, on fuel of one round for each line;
--   Words and Running: what a child runs. Overflow: the lines that go wrong.
--   Not modelled: the messages, and what happens after `execvp`.
--
-- `Water` (Asmt_5/h2o/h2o_sem.cpp).
--   How many threads stand before which call: `H` and `O` up to their first semaphore are one step, and
--   each call on a semaphore and the last line are one. `num_h` stays below 2 ^ 31. Balance: what the
--   semaphores count. Not modelled: the times, and the mutex, which guards `num_h` and single lines.
--
-- `Stats` (Asmt_5/whales/whales_stats.cc, Asmt_5/philosophers/philosophers_stats.cc,
--   Asmt_5/h2o/h2o_stats.cpp).
--   The three programs parse lines in the same way (`parse_line`, `read_stream`), and differ in what they
--   do with one (Whales, Philosophers, Water). The numbers of type `float` and `atof` are a parameter. A
--   `substr` behind the end of a line throws, and a number below 0 makes a vector grow until the memory is
--   used up: both abort the process. `atoi` is for numbers that an `int` holds. Decimal and Printing: the
--   lines as `printf` writes them; Streams: a whole text of such lines. Programs: the printing of the results,
--   and `main`. Water/Piped and Whales/Piped: a program that counts, behind the one that prints.
--   Not modelled: messages, the lines before an abort, and the handler of SIGINT.
pub mod Counting
pub mod Exec
pub mod Harness
pub mod LinkedList
pub mod Nodes
pub mod Philosophers
pub mod Prelude
pub mod Prodcon
pub mod Qsort
pub mod Recover
pub mod RoundRobin
pub mod Shell
pub mod Stats
pub mod Uthread
pub mod Water
pub mod Whales
