-- ===== src/GlobalAllocator.antt =====
-- include/global_allocator.h, src/global_allocator.c and the mapping of include/memory.h: the two
-- object spaces and their growth. The state holds the struct's fields and, beside them, what the code
-- reads and writes elsewhere in memory, by address: the headers of blocks, the holes that the sweep
-- writes into free lines, the headers of small objects, the local allocators of the threads.
-- The library runs under one mutex; the model has one thread, and the lock has no state.
pub mod Place
pub mod Large
pub mod Grow
pub mod TryCollect
pub mod Deallocate
pub mod Init
pub mod Allocated
pub mod Allocate
pub mod NextBlock
pub mod Recycle
pub mod Finalizers
use Prim.Native.Nat.{bit_and}
use gc.Base.{
  ℕ, zero, suc, ◌+◌, ◌-◌, ◌*◌, ◌/◌, ◌%◌, ◌^◌, Bool, true, false, not, ◌&&◌, ◌||◌, ltb, leb, ◌==◌,
  if◌then◌else◌, add64, sub64, word_mod, Run, ok, aborted, out_of_fuel, ◌>>=◌, ◌>>◌, assert,
}
use gc.Object
use gc.Object.{Object, object_header}
use gc.Chunk
use gc.Chunk.{null, sizeof_chunk, chunk_header_size}
use gc.ChunkList
use gc.ChunkList.{ChunkList}
use gc.Block
use gc.Block.{Blocks, block_size}
use gc.BlockList
use gc.BlockList.{BlockList}
use gc.Hash.{Hash}
use gc.LineHeader.{word_size}
use gc.Memory.{Hole, LocalAllocator}

pub record GlobalAllocator : Type 0 where
  pub small_heap_size : ℕ
  pub small_heap_start : ℕ
  pub small_heap_stop : ℕ
  pub free_list : BlockList
  pub recyclable_list : BlockList
  pub large_heap_size : ℕ
  pub large_heap_start : ℕ
  pub large_heap_stop : ℕ
  pub large_chunk_list : ChunkList
  pub finalizers : Hash
  pub memory_limit : ℕ
  pub free_space_divisor : ℕ
  pub allocated_bytes_since_collect : ℕ
  pub total_allocated_bytes : ℕ
  pub blocks : Blocks
  pub holes : ℕ → Hole
  pub objects : ℕ → Object
  pub local_allocators : ℕ → LocalAllocator

abbrev pub growth_rate : ℕ
growth_rate = 30

-- `ROUND_TO_NEXT_MULTIPLE`, on `size_t`.
unfoldable pub round_to_next_multiple : ℕ → ℕ → ℕ
round_to_next_multiple size multiple =
    (sub64 (add64 size multiple) 1 / multiple * multiple) % word_mod

-- `GC_mapAndAlign`, given the address that `mmap` returned; `~(alignment_size - 1)` is the word
-- `2 ^ 64 - alignment_size`.
unfoldable pub map_and_align : ℕ → ℕ → ℕ
map_and_align start alignment_size =
    if bit_and start (sub64 0 alignment_size) == start
    then start
    else add64 (Block.from start) block_size

-- `GC_getMemoryLimit`, given the two answers of `sysconf`.
unfoldable pub get_memory_limit : ℕ → ℕ → ℕ
get_memory_limit pages page_size = pages * page_size % word_mod

unfoldable pub in_small_heap : GlobalAllocator → ℕ → Bool
in_small_heap self pointer = leb self.small_heap_start pointer && ltb pointer self.small_heap_stop

unfoldable pub in_large_heap : GlobalAllocator → ℕ → Bool
in_large_heap self pointer = leb self.large_heap_start pointer && ltb pointer self.large_heap_stop

unfoldable pub in_heap : GlobalAllocator → ℕ → Bool
in_heap self pointer = in_small_heap self pointer || in_large_heap self pointer

unfoldable pub increment_counters : GlobalAllocator → ℕ → GlobalAllocator
increment_counters self increment = record self {
  allocated_bytes_since_collect = add64 self.allocated_bytes_since_collect increment;
  total_allocated_bytes = add64 self.total_allocated_bytes increment;
}

unfoldable pub reset_counters : GlobalAllocator → GlobalAllocator
reset_counters self = record self { allocated_bytes_since_collect = 0 }

unfoldable pub heap_size : GlobalAllocator → ℕ
heap_size self = add64 self.small_heap_size self.large_heap_size

-- Initialises `n` blocks from `cursor` on and puts them on the free list.
unfoldable pub push_blocks : ℕ → GlobalAllocator → ℕ → GlobalAllocator
push_blocks zero self cursor = self
push_blocks (suc n) self cursor =
    let m = Block.write self.blocks cursor Block.init in
    let r = BlockList.push m self.free_list cursor in
    push_blocks n (record self { blocks = r.0; free_list = r.1 }) (add64 cursor block_size)

-- The steps of `for (int i = 0; i < count; i++)`, where `int count = n`: the conversion keeps the low
-- half of the word, and a negative count is no step.
unfoldable pub int_steps : ℕ → ℕ
int_steps n = if ltb (n % 2 ^ 32) (2 ^ 31) then n % 2 ^ 32 else 0

unfoldable pub small_increment : GlobalAllocator → ℕ
small_increment self =
    round_to_next_multiple (self.small_heap_size * growth_rate % word_mod / 100) block_size

unfoldable pub grow_small : GlobalAllocator → Run GlobalAllocator
grow_small self =
    let increment = small_increment self in
    let grown = record self {
      small_heap_stop = add64 self.small_heap_stop increment;
      small_heap_size = add64 self.small_heap_size increment;
    } in
    if ltb self.memory_limit (add64 (add64 self.small_heap_size self.large_heap_size) increment)
    then aborted
    else ok (push_blocks (int_steps (increment / block_size)) grown self.small_heap_stop)

-- The body of the loop where the chunk fits: split it, take it and count.
unfoldable pub take_chunk : GlobalAllocator → ℕ → ℕ → ℕ → Run (GlobalAllocator × ℕ)
take_chunk self size atomic chunk =
    ChunkList.split self.large_chunk_list chunk (add64 size object_header) >>= λ r.
    let list = record (r.0) {
      chunks = Chunk.write (r.0).chunks chunk (Chunk.allocate ((r.0).chunks chunk) atomic);
    } in
    ok (
      record (increment_counters self size) { large_chunk_list = list },
      Chunk.mutator_address chunk,
    )

-- The loop of `GlobalAllocator_tryAllocateLarge` from a chunk on. NULL says that no chunk fits.
unfoldable pub allocate_loop : ℕ → GlobalAllocator → ℕ → ℕ → ℕ → Run (GlobalAllocator × ℕ)
allocate_loop zero self size atomic chunk = out_of_fuel
allocate_loop (suc fuel) self size atomic chunk =
    let object_size = add64 size object_header in
    let c = self.large_chunk_list.chunks chunk in
    let rest = allocate_loop fuel self size atomic c.next in
    let visit =
      assert (leb self.large_heap_start chunk)
      >> assert (ltb chunk self.large_heap_stop)
      >> (if (c.allocated == 0) && leb object_size c.object.size
          then take_chunk self size atomic chunk
          else rest) in
    if chunk == null then ok (self, null) else visit

unfoldable pub try_allocate_large : ℕ → GlobalAllocator → ℕ → ℕ → Run (GlobalAllocator × ℕ)
try_allocate_large fuel self size atomic =
    allocate_loop fuel self size atomic self.large_chunk_list.first

-- The part of `GlobalAllocator_growLarge` behind the check of the limit: one free chunk at the stop.
unfoldable pub extend_large : GlobalAllocator → ℕ → GlobalAllocator
extend_large self size =
    let cursor = self.large_heap_stop in
    let m =
      Chunk.write self.large_chunk_list.chunks cursor (Chunk.init (sub64 size chunk_header_size)) in
    record self {
      large_heap_stop = add64 self.large_heap_stop size;
      large_heap_size = add64 self.large_heap_size size;
      large_chunk_list = ChunkList.push (record (self.large_chunk_list) { chunks = m }) cursor;
    }

-- What the allocator takes from elsewhere: `log2` and `ceil` of the C library, as the least power of
-- two that is not below a number, and the program's own `GC_collect`, which is to run a collection.
pub record Environment : Type 0 where
  pub ceil_log2 : ℕ → ℕ
  pub gc_collect : GlobalAllocator → Run GlobalAllocator
  pub is_collecting : Bool

module _ (env : Environment) (fuel : ℕ) where
  unfoldable pub grow_large : GlobalAllocator → ℕ → Run GlobalAllocator
  grow_large self increment =
      let size = round_to_next_multiple (2 ^ env.ceil_log2 increment % word_mod) block_size in
      if ltb self.memory_limit (add64 (add64 self.small_heap_size self.large_heap_size) size)
      then aborted
      else ok (extend_large self size)

  -- Whether a collection ran. A divisor of 0 stops the program.
  unfoldable pub try_collect : GlobalAllocator → Run (GlobalAllocator × Bool)
  try_collect self =
      let collected = env.gc_collect self >>= λ s. ok (s, true) in
      let checked =
        assert (not (self.free_space_divisor == 0))
        >> (if ltb self.allocated_bytes_since_collect (heap_size self / self.free_space_divisor)
            then ok (self, false)
            else collected) in
      if env.is_collecting then ok (self, false) else checked

  -- Growth and the last attempt; without a chunk even then, the program stops.
  unfoldable pub grow_and_allocate : GlobalAllocator → ℕ → ℕ → Run (GlobalAllocator × ℕ)
  grow_and_allocate self rsize atomic = grow_large self (add64 rsize sizeof_chunk) >>= λ s.
      try_allocate_large fuel s rsize atomic >>= λ r. (if r.1 == null then aborted else ok r)

  -- The second attempt, after a collection.
  unfoldable pub collect_and_allocate : GlobalAllocator → ℕ → ℕ → Run (GlobalAllocator × ℕ)
  collect_and_allocate self rsize atomic = try_collect self >>= λ c.
      let again = try_allocate_large fuel c.0 rsize atomic >>= λ r.
      (if r.1 == null then grow_and_allocate r.0 rsize atomic else ok r) in
      if c.1 then again else grow_and_allocate c.0 rsize atomic

  unfoldable pub allocate_large : GlobalAllocator → ℕ → ℕ → Run (GlobalAllocator × ℕ)
  allocate_large self size atomic =
      let rsize = round_to_next_multiple size word_size in
      try_allocate_large fuel self rsize atomic >>= λ r.
      (if r.1 == null then collect_and_allocate r.0 rsize atomic else ok r)
