-- ===== src/Lib.antt =====
-- Models and theorems for the core of udipe, a library for UDP networking in C.
--
-- The parts of the program and their modules:
-- * src/bits.h (Words): the machine word and what the library computes on it. Ops has the
--   functions under their C names; Digits, Bit and Laws have the bits of words, Count,
--   Rounding and Carry the counts, the rounding up and the carries.
-- * src/bit_array.h (BitArray): packed arrays of bits, a list of 64-bit words. Defs has every
--   operation under its C name, with one helper for each loop; Bits says what a bit of an
--   array is, and each further module has the theorems of one operation.
-- * src/memory.c and src/memory.h (Memory): page size, allocation granularity, and the memory
--   locking limit that is asked for. Pages and Limit have the theorems.
-- * src/buffer.c and src/buffer.h (Buffer): the pool of network buffers. The allocator is the
--   record `BufferAllocator`, memory is a function from addresses to bytes, and the operations
--   are those of the C code; the allocator keeps its availability in a bit array, searches it
--   by bit_array_find_first(), and gets its pages from src/memory.c. Invariant has the
--   well-formedness of an allocator; Tuning, Initialize, Alloc, Liberate and Finalize have the
--   theorems.
-- * src/future (Future): the status word of a future. Kind has the enumerations of type.h,
--   state.h and outcome.h, Status the fields of status.h with the checks of status_ops.c,
--   Shared the atomic operations of status_ops.h, Page the occupancy of a page of
--   allocator/pointer_cache.h. Word, Check, Downstream and Atomic have the theorems,
--   Exchange those about weak compare-exchanges, and Waiters a step relation for any number of
--   threads that wait for one live future, leave it or move its state.
-- * src/future/allocator/thread_cache.c and .h (ThreadCache): how a dying thread and a dying
--   context share the destruction of the thread's cache. Each of the two functions is cut into
--   its atomic steps on the shared flags; the sleep of the context until the flags change, and
--   its wake-up, are steps too. Handshake has the theorems for every order of the steps, and
--   Schedule those for a schedule in which both parties get enough turns.
-- * src/future/allocator/context_cache.c and .h (ContextCache): the growing list of the thread
--   caches that a context knows. Registry and Finalize have the theorems.
-- * src/future/allocator/sync_caches.c and .h (SyncCaches): the ring buffers in which a thread
--   keeps events, and inpolls with their events, for reuse. Stack and Latched show which stack
--   such a ring stands for.
-- * src/future/allocator/pointer_cache.c and .h (PointerCache): the free futures of a thread
--   or a context, in pages that are linked both ways. The memory is the record `Heap`, and a
--   cache the record `PointerCache`. Local, Transfer and Whole have the operations. Contents
--   says which stack of futures a cache stands for: the pages in use are a `Chain` from the
--   top page down, and empty pages come above them. Links, Order, Positions, Unlink and
--   Splice are about the list of pages, Slots about copies between pages; Allocate,
--   Liberate, Extract, Obtain, Empty, Bottom, Merge, Overflow, Refill and Lifetime have the
--   theorems of one operation each.
-- * src/future/allocator.c and src/future/allocator/storage_page.c (Allocator): how a thread
--   takes futures and gives them back, with the pointer caches of the thread and the context and
--   the context's storage pages. The context's mutex makes a call one step. Disjoint says that
--   the caches share no page; Steal and Refill are the parts of taking a future, Spill of giving
--   one back, and Allocate and Liberate have the theorems.
-- * src/refcounted_tss.c and .h (Tss): the counter of a thread-local storage key that its
--   owner and the threads share. Sharing has a step relation for any number of threads, and
--   the theorems.
-- * src/benchmark/distribution.c and .h (Distribution): histograms of signed 64-bit values.
--   Defs has the record `Distribution` and its storage, two arrays; Search has the two binary
--   searches, Build the insertions and the change of counts into ranks, Query what is read out
--   of a distribution, and Combine the making of distributions out of others, all under their
--   C names with a helper for each loop. ByValue, Found and FindValue are about the search by
--   value; Shift, Occurrences, Builder, Insert, InsertCopies and Refine about insertion, up to
--   the multiset that a builder stands for; Ranks, ByRank, CountBelow and Difference about
--   built distributions.
-- * src/bits.c (Entropy): entropy_to_bits(), with its theorems in Cut.
-- * src/duration.h (Duration): durations as timeouts of Unix system calls.
-- Prelude has the shared names, tests, lists, signed integers, and the chains of code that can
-- end the process. The modules Tests run the models on concrete inputs.
--
-- Conventions. A machine integer is a natural number, and each operation that can wrap has its
-- `% 2 ^ w`; words have 64 bits. The int64_t values of a distribution are integers, and a sum
-- or a product that overflows is `none`, as it has no meaning in C. Outside Words and BitArray
-- `none` is the end of the process: a failed assertion, ensure() or exit(); the build is one
-- with assertions. An access out of bounds of the arrays of a distribution is `none` too. The
-- assertions of bit_array.h and bits.h are hypotheses of the theorems instead. What the
-- operating system, hwloc, malloc(), realloc(), rand() and realtime_allocate() answer is an
-- argument. An operation on a shared status word takes the word and returns the new one, and
-- what other threads do between two atomic operations of one call is a function of the word. A
-- weak compare-exchange takes whether it fails for no reason. What the word before the array
-- of an empty builder reads as, which distribution_insert_copies() does for its log, is an
-- argument, `stray`.
--
-- Loops are structural recursion on the number of rounds, which the range of the loop gives:
-- one per bit of a word, or one per word or bin of an array. Eight have fuel. The doubling of
-- the locking limit has 65 rounds, enough where the soft limit is positive and the limit to
-- reach is at most `2 ^ 63`; the binary search in a page has as many rounds as the page has
-- slots, and those in a distribution as many as it has bins; the loop that closes a ring of
-- four has five rounds; the loop that frees a pointer cache has one round more than the cache
-- has pages. The theorems about them prove that a result is reached. The two loops of a spill
-- need one round more than the cache has pages of each kind, which a test shows for one cache.
--
-- Not modelled: logging; the system calls;
-- generate_entropy(); the wait and the wake-up on an address, but for thread caches;
-- memory orderings (an atomic operation is one step); free() outside a pointer cache;
-- future_storage_liberate_all(); future_allocate() and future_liberate(), which give a future
-- its synchronization objects; waiting for futures, timers and polling; floating-point
-- statistics and the timing of benchmarks; names, commands and connections; Windows.
pub mod Allocator
pub mod PointerCache
pub mod Prelude
pub mod Words
pub mod BitArray
pub mod Memory
pub mod Buffer
pub mod Future
pub mod Entropy
pub mod Duration
pub mod ContextCache
pub mod Distribution
pub mod SyncCaches
pub mod Tss
pub mod ThreadCache
