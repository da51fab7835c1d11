-- ===== src/Tests.antt =====
-- The theorems at concrete heaps, blocks, lists and arrays.
mod Chunks
mod Blocks
mod Containers
mod Allocator
mod Collection
mod Collecting
mod SmallObjects
mod Tables
mod Locals
