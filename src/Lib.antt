-- ===== src/Lib.antt =====
-- The real-time C++ library `rtlcpp`: the single-producer single-consumer ring buffer, the
-- allocator-aware vector, the incremental hash map, the object pool, the least recently used
-- cache, the smart pointers, the spin lock, the periodic task and the hash function.
--
-- Parts. `rtl::spsc_ringbuffer` (librtlcpp/ring_buffer.cpp,
-- librtlcpp/include/rtlcpp/ring_buffer.hpp) is Ring.antt: the record `Ring` has the data members,
-- with the memory behind `m_buf` as the list `buf`, and each member function is a function of the
-- same name. Index arithmetic is that of `uint32_t`, written out with `% 2 ^ 32`; an access outside
-- of a buffer is the fault `none`. Each of these functions is a call with no other thread in
-- between. Below Ring stand the invariant and the queue of bytes that a ring holds (Ring/Inv), the
-- copies (Ring/Copy, Ring/Write), the producer (Ring/Produce), the consumer (Ring/Consume), the
-- blocks that are handed out (Ring/Room, Ring/Blocks), and calls that go wrong (Ring/Faults).
-- Ring/Threads has `write` and `read` as two threads run them: each load of the other thread's
-- index, each copy and each store is a step of its own, and the steps of the threads interleave in
-- any order (sequentially consistent; the acquire and release orders of the source are what lets the
-- copy of one thread be seen by the other). Overlap, Fifo and Progress below it are about all such
-- runs.
--
-- `rtl::vector` (librtlcpp/include/rtlcpp/vector.hpp) is Vector.antt: `items` are the objects in the
-- cells up to `m_count`. It takes its memory from an allocator, which is the parameter `Alloc` of
-- Alloc.antt, a heap type with `allocate` and `deallocate` and no laws: every theorem holds for any
-- allocator, one that always fails included. `Element` has the size of an element type and the effect
-- of its destructor on the heap.
-- A store into a cell of the buffer is not checked in the functions that the other parts use;
-- `push_back_checked` checks it, and Vector/Push has what that means for `push_back`. Vector/Growth is
-- about `reserve`, Vector/Overflow about a request that is too large for `size_t`, Vector/Copying about
-- `copy` and `operator==`, and Vector/Removal about the removals.
--
-- `rtl::unordered_map` (librtlcpp/include/rtlcpp/map.hpp) is Bucket.antt (the structs `Entry` and
-- `Bucket`, over Vector), Table.antt (the struct `Table`, over Bucket) and UnorderedMap.antt with
-- UnorderedMap/Methods (the map of two tables, of which the first is moved into the second a few
-- keys at a time). Pointers to entries are indices, the pointers to tables are options, and `Params`
-- has the template parameters: the equality and the hash of a key, and the sizes of the nodes.
-- Table/View has the invariant of a table; Table/Methods and Table/Lookup have its operations;
-- UnorderedMap/Store and UnorderedMap/Put have the work of `put` on the main table;
-- UnorderedMap/Transfer, UnorderedMap/Pair, UnorderedMap/Sweep and UnorderedMap/Keep have the
-- partial transfer; UnorderedMap/Finish has the end of `finalize`; UnorderedMap/Public has
-- `contains` and the ends of `get`, `put` and `del`. UnorderedMap/Secondary and UnorderedMap/Delete
-- have `put` and `del` in transfer, Table/Fresh the table of the constructor and UnorderedMap/Begin
-- the start of a resize. UnorderedMap/Holds says what function of the keys a map stands for;
-- UnorderedMap/Calls, UnorderedMap/PutCall, UnorderedMap/DelCall, UnorderedMap/Shrink,
-- UnorderedMap/Reserve and UnorderedMap/Clearing have what each call does to it, UnorderedMap/Start
-- the constructor, and UnorderedMap/Reach has the runs of calls on a new map; UnorderedMap/Memory
-- has what it means that a transfer fails. A run begins with a constructor that got at least one
-- bucket, has no `put` that returns false (the roll-back of its count is wrong), no `finalize` or
-- `reserve` that returns false, and stays below 2 ^ 64 - 2 entries and 2 ^ 31 buckets. The move of a
-- key leaves the key as it is, as it does for numbers and pointers.
--
-- `rtl::object_pool` (librtlcpp/include/rtlcpp/object_pool.hpp) is ObjectPool.antt: a vector of the
-- addresses of free objects, with the constructor and the destructor of the objects as effects on the
-- heap in the parameter `Class`. ObjectPool/Laws is about `add_to_pool`, `get` and `put`.
--
-- `rtl::lru` (librtlcpp/include/rtlcpp/lru.hpp) is Lru.antt, over UnorderedMap and ObjectPool: the map
-- has for each key a pointer to its node, the pool has the memory of the nodes. The linked list is
-- Lru/Nodes: the nodes stand in a store by their addresses, and an access through a null pointer is the
-- fault `none`. The link to its predecessor of the first node and the link to its successor of the last
-- one are left as they are by `take_node`, as in the source, and nothing reads them. Nodes/Linked says
-- when a chain links the nodes of a list; Nodes/Push, Nodes/Back and Nodes/Take are about `push_front`,
-- `pop_back` and `take_node`. Lru/Recency and Lru/Recency/Uses have the list of entries in the order of
-- their last use; Lru/Public has the calls of a client, by what the map
-- answers, and Lru/Full has `put` on a cache that is full, with the pool.
--
-- The smart pointers (librtlcpp/include/rtlcpp/memory.hpp) are Memory.antt: a `shared_ptr` or a
-- `weak_ptr` is a handle, the address of a control block, and the control blocks stand in a store;
-- an access to one that has been freed is the fault `none`. Memory/Handles has programs over any
-- number of such pointers as a step relation; Memory/Counts, Memory/Operations, Memory/Assignments
-- and Memory/Safety have what the counts are in every such program. Memory/Unique and
-- Memory/Unique/Array are `unique_ptr`.
--
-- `rtl::SpinLock` (librtlcpp/include/rtlcpp/mutex.hpp) is SpinLock.antt: a step relation for any
-- number of threads, each atomic access a step of its own; SpinLock/Exclusion is about all their
-- interleavings.
--
-- `rtl::PeriodicTask` (librtlcpp/include/rtlcpp/task.hpp) is Task.antt: the thread of the task and
-- any number of threads that call `start`, `signal_shutdown` and the notifications, each access to
-- the mutex, the flag and the condition variable a step of its own. The results of `m_call` and of
-- `pthread_setschedparam` are free, and a wait may end at any time, as for a spurious wake-up or a
-- timeout. Task/Shutdown has the invariant, Task/Ends what a shutdown leads to.
--
-- `rtl::MMapMemoryResource` and `rtl::detail::RTAllocator` (librtlcpp/allocator.cpp,
-- librtlcpp/include/rtlcpp/allocator.hpp) are Resource.antt: `mmap` and `munmap` are the parameter
-- `Mapper`, the functions of the arena (rtl_tlsf_make_arena and the two beside it, in C) the parameter
-- `Arenas`. `allocator` there is an `Alloc`, so every theorem on a container holds for it.
-- Resource/Maps is about the calls of the operating system in the life of a resource.
--
-- Hash.antt has FNV-1a (librtlcpp/include/rtlcpp/hash.hpp) on lists of bytes. Primes.antt has the
-- table of bucket counts (librtlcpp/include/rtlcpp/utility.hpp). Base.antt passes on the shared
-- helpers, and Tests.antt has runs on small inputs.
--
-- Bounds and fuel. A valid ring has a capacity of at most 2 ^ 31, so that an index and a size add up
-- below 2 ^ 32. `transfer_all`, the loop of `finalize` and `reserve`, runs on fuel and is `none` when
-- it is used up; UnorderedMap/Finish has how much is enough for `finalize`, and UnorderedMap/Reserve
-- for `reserve`: 2 ^ 64, as a table counts its entries in `size_t`.
-- `pop_all`, the loop of the cache's destructor, runs on fuel too, and Lru/Public has how
-- much. The loops of a partial transfer are structural: over the 512 keys of a step and the buckets
-- that are left.
--
-- Not modelled: the memory order of the atomics, the load factor as a `float` (it is given in
-- percent), the arenas of the real-time allocator, copies of the pool's handle `Obj`, the operations
-- of several threads on one control block, the assertions of debug builds, the mutexes of the system
-- and the deadlines of the periodic task.
pub mod Base
pub mod Primes
pub mod Resource
pub mod ObjectPool
pub mod Memory
pub mod Hash
pub mod Ring
pub mod Alloc
pub mod Vector
pub mod Bucket
pub mod Table
pub mod Task
pub mod UnorderedMap
pub mod Tests
pub mod Lru
pub mod SpinLock
