-- ===== src/Lib.antt =====
-- Verification library of stdc, a set of C modules for everyday programs.
--
-- Parts and files:
-- - Prelude: shared names; machine words over native numbers and the laws of their bitwise
--   operators; lists that are read and written by position.
-- - HashMap models hashmap.c and hashmap.h. Variant is HashMapVariant with its equality, hash and
--   copy; Capacity is __next_power_base__; Chain is a bucket's list of nodes; Table is the struct
--   HashMap with one function for each of hashmap_create, __hashmap_add__, __hashmap_get__,
--   __hashmap_contains__, __hashmap_remove__, __hashmap_resize__, hashmap_clear and
--   __hashmap_sizeof__, and Table/Api adds their tests for a null pointer. Below Table, Buckets and
--   Rehash relate a table to the map that it stands for, Refine and its children the operations.
-- - Sha256 models sha256.c and sha256.h. Transform is __sha256_transform__; Context is the struct
--   with sha256_init, sha256_update and sha256_final; Hash has the one-call functions, HMAC,
--   secure_memequal and secure_memzero. Padding describes the padded message and a digest over
--   __sha256_transform__, Stream what a context holds; Final, Digest, Hmac, Hex and Memory relate the
--   two. Standard is FIPS 180-4 apart from the code, and Words, Agreement and Fips relate the code to it.
-- - ThreadPool models threadpool.c and threadpool.h. Ring is the circular queue of tasks, Pool the
--   struct with __threadpool_count__, __threadpool_signal_idle__, __threadpool_leave__ and
--   __threadpool_submit_leave__; Submit is threadpool_add_batch, Worker __threadpool_worker__, and
--   Control the other functions. Outcome lists the outcomes of these. System puts a pool together
--   with its callers and the history of the tasks, and a step relation runs the functions in any
--   order; below it, each counter or list has its invariant, and Promises what they give. Calls is
--   about single calls.
-- - MemoryPool models memorypool.c and memorypool.h: memorypool_create, memorypool_alloc and
--   memorypool_free over a memory of words. Owners says what a region of memory is given to, Space
--   when regions lie apart, Free is about one free list, Owned about the whole pool, Carve about the
--   division of a chunk, Sizes about the choice of a size, Alloc and Calls about the three functions.
-- - HashSet models set.c and set.h. Element is a value with __set_get_hash__ and
--   __set_slot_equal__; Probe has the loops from slot to slot of __set_find_slot__ and
--   __set_resize__; Table is the struct Set with set_create, __set_put__, __set_del__,
--   __set_contains__, __set_resize__ and __set_shrink__. Search shows where the loops end, Counts what
--   the two counters of a table mean, Rebuild, Ends and Removal which calls return, and Endless
--   which do not. Equal is about __set_slot_equal__, Placed and Stays about where values stand, Held
--   about how often, and Moves about the move into another table; Model is the set that a table
--   stands for, with __set_contains__ read on it, Adds is __set_put__ and Deletes __set_del__.
-- - Md5 models md5.c and md5.h: Transform is __md5_transform__ with the macros, Context the struct
--   _ContextMD5 with the other functions. Padding describes the padded message and a digest over
--   __md5_transform__, Stream what a context holds; Update, Final, Digest, Hex and Endless are about
--   the functions. Standard is RFC 1321 apart from the code, and Words and Agreement relate
--   __md5_transform__ to it.
-- - Os models the Unix branches of os.c. Path and its children are os_basename, os_traversal and
--   os_canonical_path; Read is os_readfile with os_stream_size; Descriptor is os_fopen_private_write,
--   os_mmap, os_munmap and the lock on a path; Random is os_srand, os_random and os_random_bytes, with
--   the bytes of the random device as a list, Fill about the last; Remove is os_remove, Listdir is os_listdir, with its children about it; Query has os_access, os_isdir, os_isfile,
--   os_mkdir, os_file_size and os_stream_matches_path. os_getexec on Linux is in Path/Executable,
--   and Sleep has os_sleep.
-- - Socket models socket.c: Transfer has socket_send_all, socket_recv_all, socket_recv_all_deadline and
--   socket_setopt_timeout, with Send and Recv about them; Connect is socket_connect_timeout, Sendfile
--   socket_sendfile on Linux, and Portable the same on systems without a call for it.
-- - AsyncLog models async_log.c and async_log.h: the logger, and a step relation that runs its calls and
--   the workers of the thread pool in any order. Tasks is about the list of free tasks, Messages about
--   the messages of tasks, Sound and Reach about what holds between two steps, Format is
--   __async_log_callback_common_format__. Log models log.c.
-- - Tests runs the models on concrete inputs.
--
-- How the code is read:
-- - A uint64 or size_t is a native number with its wrap-around written as a remainder. The
--   comparisons with the load factors 0.75 and 0.25 are over integers, which is what the code's
--   double arithmetic computes below 2 ^ 53 nodes.
-- - The answers of malloc, calloc and strdup are Boolean arguments of the operation that asks.
--   Theorems hold for every answer unless they say otherwise. Freed memory has no counterpart.
-- - A float is its bit pattern; comparison is that of IEEE 754. A word's bytes in memory are in
--   little-endian order. A struct's size is that of a 64-bit system.
-- - A loop over a list or a count is structural. The loop of __next_power_base__ has fuel 64: its
--   variable at least doubles in each round and stays below 2 ^ 64.
-- - The seed of a table is an argument: the code mixes the time and an address.
-- - The buffer of a new SHA-256 context is an argument, since the code leaves it as it is.
-- - A function of threadpool.c is cut where it releases the lock: submit_enter and submit_try are
--   threadpool_add_batch up to its loop and one round of the loop with what follows, submit_wake is
--   its return from the wait; wait_enter and wait_try are threadpool_wait, fetch, worker_wake and
--   finish the worker, destroy_begin and destroy_end __threadpool_destroy__. What such a part sends
--   to sleepers is a list of wake-ups. In the step relation a sleeper may go on at any time, so that
--   it covers every schedule, with spurious wake-ups. The tests for a null pointer are left out.
-- - The memory of a MemoryPool is a function from addresses to words, of which the code writes the
--   first word of a chunk and of a block. malloc returns an address of which the pool has nothing, a
--   hypothesis; the locks of the pool are left out, so that each call is one step.
-- - The loops of set.c that walk over the slots have the number of slots as fuel: a walk has met every
--   slot by then and would only repeat itself, and without an empty slot no fuel is enough.
-- - sha256_file and md5_file get the list of what fread returns.
-- - A call of the system is an argument: a list of answers where the code asks again, as after EINTR, and
--   a record of what each call returns elsewhere. A loop asks for one answer in each round, and where
--   there is none left it still waits.
-- - A tree of files carries what the system answers about each of its entries; a directory that holds
--   an entry cannot be removed. Open descriptors, streams and blocks of memory are counted.
-- - The loop of socket_sendfile over the file, where there is a buffer in between, has one round of fuel
--   more than bytes were asked for; each round but the last sends a byte.
-- - A time in seconds is a whole number of microseconds, and one of nanoseconds in os_sleep.
-- - The macros of md5.h take their variables in turn; Registers has them in the order of the next one.
-- - The loop of __md5_update__ has as fuel one more than the number of blocks in its input, which it
--   does not use up unless its 32-bit index wraps around; then there is no result, and what calls it
--   has none. os_traversal has the length of the path.
-- - Messages are lists of numbers; where a theorem needs them to be bytes, it says so.
-- - In AsyncLog the lock is configured, and the thread pool runs each accepted task once.
--
-- Not modelled: the functions that only print or free (hashmap_print_view and its kind,
-- hashmap_destroy, memorypool_destroy, set_view, set_destroy), the iterator macro of hashmap.h, the
-- formats of the loggers, the functions of os.c and socket.c that are one call of the system, their
-- branches for other systems, and thread.c, which wraps the calls of the system for threads.
pub mod Prelude
pub mod HashMap
pub mod Md5
pub mod Sha256
pub mod ThreadPool
pub mod MemoryPool
pub mod HashSet
pub mod Socket
pub mod Os
pub mod AsyncLog
pub mod Log
mod Tests
