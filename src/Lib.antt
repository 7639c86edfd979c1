-- ===== src/Lib.antt =====
-- Narthex, a C library of system building blocks: allocators over memory the caller hands in
-- (modules/allocator), file paths (src/nth_path.c), times (src/nth_time.c, src/nth_uptime.c), a log
-- that threads share (src/nth_log.c), the start and the end of the library (src/narthex.c), and what
-- they stand on (include/narthex).
--
-- Which file models what
--   Prelude    shared names, C's tests on numbers, lists, signed integers, 64-bit words and the laws
--              of `&` and `|` on words split into fields
--   Result     include/narthex/nth_result.h and NTH_ASSERT of include/narthex/utils/check.h
--   Align      include/narthex/inl/align.h
--   Allocator  modules/allocator/include/narthex/alloc/span.h and allocator.h
--   Arena      modules/allocator/arena.c: a bump pointer in one span
--   DynArena   modules/allocator/dyn_arena.c: a bump pointer in a growing array of spans
--   FreeList   modules/allocator/free_list.c: blocks with headers on a free and a used list.
--              `FreeList.Key` is the packed size and span index, `FreeList.Blocks` the lists of
--              blocks, and `FreeList.Table` the tables of functions with the bytes of memory
--   Core       include/narthex/inl/lifecycle.h and src/narthex.c: the life cycle word, and the
--              interleavings of the threads that change it
--   Log        src/nth_log.c: the shared buffer. `Log.Threads` has the steps of the threads, `Log.Inv`
--              the invariant, kept by `Log.Lock` and `Log.Steps`; `Log.Safety` and `Log.Live` have
--              what follows from it, `Log.Calls` the calls of a lone thread as functions, and
--              `Log.Alone` relates these to the steps
--   Uptime     src/nth_uptime.c and include/narthex/nth_uptime.h: the monotonic clock
--   Time       src/nth_time.c: the civil calendar. `Time.Civil` has the eras, `Time.Laws` the theorems
--              on dates and `Time.Calendar` the conversions of nanoseconds
--   System     modules/filesystem/system.c: `fs_cached_get`, by steps of threads that share a
--              slot, and the loops of `fs_compute_cwd` and `fs_compute_exe` on fuel: a round more than
--              the doublings of the buffer that the text needs is enough
--   Path       src/nth_path.c as built for POSIX. `Path.Meta` is the packed word, `Path.Text` is what
--              a path is to its user, and `Path.Refine`, `Path.Append` and `Path.Calls` relate the two;
--              `Path.Query` has the views into a path, `Path.Normalize` nth_path_normalize in place over
--              the bytes of the block, and `Path.Normalize.Spec` the normal form by the parts between
--              separators; a part takes at least one byte, so a round per byte is enough for the loop
--
-- How the code is translated
--   A function of the C code is a function of the same name here. What it changes through a
--   pointer comes back with its result. A pointer into memory is its address and NULL is `none`;
--   a number of type nth_usize, nth_uptr or nth_u64 is a native number, with `% 2 ^ 64` where an
--   operation may wrap (Prelude.Words). The days and years of the civil calendar are integers
--   without a bound: the callers stay far below the limits of nth_i64. An assertion that stays in
--   a release build (NTH_ASSERT) gives `trap`; one that does not (NTH_DASSERT) is a hypothesis of
--   the theorems that need it. malloc and realloc are arguments: the bytes or cells that they
--   add, or `none` where they fail, any number of them of any contents. A list linked through
--   memory is the list of its nodes; where the bytes of memory count (FreeList.Table), what the
--   list writes into headers is any bytes outside the data of the blocks in use. Loops are by
--   structural recursion, on the number of rounds that are left.
--
-- Threads
--   Where threads share memory, a state has the shared memory and where each thread stands, and a
--   step is one access of an atomic variable, one write outside the lock, or what a thread does under
--   the lock between such accesses. The steps of different threads are interleaved in any order, as
--   if memory were sequentially consistent; the weaker orders of the atomic operations are not
--   modelled. There are fewer than 2 ^ 32 threads, so that the count of writers does not wrap.
--
-- What is not modelled
--   The local times, the conversions to floating point, and of the file system everything but
--   `fs_cached_get`, `fs_compute_cwd` and `fs_compute_exe`.
--   Poisoning and AddressSanitizer (off in the default build), the Windows branches, the Vulkan
--   module, the mutex and atomic wrappers, and the operating system: the clocks, localtime_r, write,
--   vsnprintf, malloc and realloc are parameters.
pub mod Prelude
pub mod Align
pub mod Result
pub mod Allocator
pub mod Arena
pub mod DynArena
pub mod FreeList
pub mod Core
pub mod Log
pub mod Uptime
pub mod System
pub mod Time
pub mod Path
