-- ===== src/Lib.antt =====
-- gc: verification of the Immix garbage collector in C of this repository.
--
-- The program gives memory from two spaces. The large object space is a list of chunks that stand in
-- memory without a gap, each with a header and an object; it is searched first fit, split on
-- allocation and merged on a sweep. The small object space is a row of blocks of 32 KiB, each of 127
-- lines; free and recyclable blocks wait in two queues, from which the local allocators of the threads
-- take them. A collection marks what the stacks and the data segments reach, sweeps the chunks and
-- sorts the blocks into the queues. Finalizers are kept in a hash table.
--
-- The files, and what of the code they model:
--   Base: lists, options, Boolean tests and 64-bit words that all share, and `Run`, the outcome of code
--     that may abort.
--   Object: include/object.h, the header of an object.
--   Chunk, ChunkList: include/chunk_list.h. ChunkList.Layout is the abstract view, a list of cells;
--     Split, Push, Find, Validate and Sweep have the operations of these names.
--   LineHeader, Block: include/line_header.h, include/block.h and include/constants.h.
--   BlockList: include/block_list.h, and its view as a queue in BlockList.Queue.
--   Array: include/array.h, and its view as a list in Array.Items.
--   Stack: include/stack.h, and its view as a list of regions in Stack.Regions.
--   Hash: include/hash.h and src/hash.c. Triangular and Probe have the probe, Resize, Insert and
--     Growth the insertion, Delete the deletion, Sweep the conditional deletion.
--   Memory: the holes of include/line_header.h and the local allocators of include/local_allocator.h.
--   GlobalAllocator: include/global_allocator.h, src/global_allocator.c, and parts of include/memory.h
--     and include/utils.h. Place is first fit on cells; Large, Grow and Allocate have
--     `GC_GlobalAllocator_allocateLarge`. NextBlock has `GC_GlobalAllocator_nextBlock` and
--     `GC_GlobalAllocator_nextFreeBlock`, and the growth of the small space. Init has
--     `GC_GlobalAllocator_init`, Deallocate has `GC_GlobalAllocator_deallocateLarge`, and Finalizers
--     the operations on finalizers. Recycle has `GC_GlobalAllocator_recycleBlocks`: Gaps to Swept are
--     about the scan of one block, Blocks and BlockSteps about what becomes of it, Queues, Lists and
--     Sorting about the loop and the two lists.
--   LocalAllocator: src/local_allocator.c and include/local_allocator.h. Holes has first fit over the
--     holes of a block, Recycled the link to the holes of a recycled block.
--   Collector: src/collector.c and include/collector.h, the search of the small space in Small. Unmark
--     has the unmarking of the chunks. Marking has the interface `Graph`, a heap that can say which
--     object a pointer points into, and reachability; Loop and Correct are about every such heap. Large,
--     LargeSpace and LargeGraph are about the chunks, Small, SmallShield, SmallMark, SmallSearch and
--     SmallLines about the objects in the lines of blocks; Spaces and Both fill the interface for both
--     spaces together. SmallUnmark and SmallBlank have the unmarking of the small space. Swept,
--     Collected and Reclaim have the steps in front of the marking and behind it, Whole
--     `GC_Collector_collect`.
--   Options: include/options.h.
--   Immix: src/immix.c, with the statistics in Stats and their theorem in Usage; Route has the
--     division of the requests between the two spaces.
--   Tests: the theorems at concrete states.
--
-- A definition has the name of the C function without its prefix, in snake case. An address is a
-- number, NULL is 0. A `size_t` is a number below 2 ^ 64, and sums and differences wrap around. The
-- memory that a structure links is a function from addresses to headers: of chunks, of blocks. Code
-- that writes returns the new state. A failed assertion and `abort` are the outcome `aborted`.
--
-- Holes and headers of objects are in maps of their own, though a hole's two words lie in the first
-- bytes of a free line, where the header of a dead object may have stood: in the model such a header
-- keeps its contents. What is stated of headers behind a recycling is stated of those that no hole is
-- written over. Line indices and offsets of objects in a line, `int` in the code, do not wrap around,
-- as the sizes of objects are at most 8192; the index of `Array_get` is a number that is not
-- negative.
--
-- A loop that follows links takes fuel. A chunk takes 32 bytes or more, so that a laid out list has
-- less than 2 ^ 60 chunks, and the theorems say how much fuel is enough. A probe of the hash table
-- takes at most as many steps as the table has entries. A line has 256 bytes and a block 127 lines,
-- which bound the searches of the small space. A region has less than 2 ^ 61 words, and the
-- marking takes one round for each region that waits and each object that is not marked yet.
--
-- Parameters: the hash function (include/murmur.h is a third party's), the finalizers of objects,
-- `ceil(log2(x))` of the C library, the collector that the allocator calls (the program defines
-- `GC_collect`) and its callback, the addresses that `mmap` gives, what `getenv`, `strtoul` and
-- `sysconf` give, the contents of fresh memory, and the words that the marking reads.
--
-- Not modelled: the mutex and the keys of threads (the model has one thread at a time), registers and
-- the bounds of stacks, `GC_deinit` and `GC_Hash_free`, which only release memory, logging, and the
-- Crystal binding.
pub mod Base
pub mod Object
pub mod Chunk
pub mod ChunkList
pub mod LineHeader
pub mod Block
pub mod BlockList
pub mod Array
pub mod Stack
pub mod Hash
pub mod Memory
pub mod GlobalAllocator
pub mod LocalAllocator
pub mod Collector
pub mod Options
pub mod Immix
pub mod Tests
