-- ===== src/GlobalAllocator/Init.antt =====
-- `GC_GlobalAllocator_init` of src/global_allocator.c. The addresses that `mmap` gives, and the two
-- options, are parameters; `mmap` is taken to succeed.
pub mod Ready
use gc.Base.{
  ℕ, zero, suc, ◌+◌, ◌-◌, ◌*◌, ◌/◌, ◌%◌, ◌^◌, ◌≤◌, ◌<◌, ◌≡◌, ◌∙◌, refl, sym, subst, [], ◌∷◌, ◌++◌,
  arith, word_mod, ltb, leb, lt→ltb, le→leb, le→ltb, ◌==◌, if◌then◌else◌, add64, add64-add, sub64,
  sub64-sub, Run, ok, out_of_fuel, Returns, ◌>>=◌, ◌>>◌, assert,
}
use gc.Chunk
use gc.Chunk.{chunk_header_size}
use gc.ChunkList
use gc.ChunkList.Layout.{IsLayout}
use gc.ChunkList.Push.{push-IsLayout}
use gc.ChunkList.Split.{free_cell}
use gc.Block
use gc.Block.{block_size}
use gc.BlockList
use gc.Hash
use gc.GlobalAllocator.{GlobalAllocator, map_and_align, push_blocks}
use gc.GlobalAllocator.Large.{HasLayout}
use gc.GlobalAllocator.Grow.{IsMapped}
use gc.GlobalAllocator.NextBlock.Pushed.{
  addresses, HasBlocks, Pushed, pushed_one, push_blocks-zero, push_blocks-suc, push_blocks-Pushed,
}
use gc.GlobalAllocator.NextBlock.Grow.{length-addresses}

-- The loop over the first blocks.
unfoldable pub init_blocks : ℕ → GlobalAllocator → ℕ → Run GlobalAllocator
init_blocks zero self block = out_of_fuel
init_blocks (suc fuel) self block =
    let m = Block.write self.blocks block Block.init in
    let r = BlockList.push m self.free_list block in
    let rest =
      init_blocks fuel (record self { blocks = r.0; free_list = r.1 }) (add64 block block_size) in
    if ltb block self.small_heap_stop then rest else ok self

-- The small object space: its bounds, and its blocks on the free list.
unfoldable pub init_small : ℕ → GlobalAllocator → ℕ → ℕ → Run GlobalAllocator
init_small fuel self heap_start initial_size =
    init_blocks fuel
      (record self {
        small_heap_size = initial_size;
        small_heap_start = heap_start;
        small_heap_stop = add64 heap_start initial_size;
        free_list = BlockList.clear self.free_list;
        recyclable_list = BlockList.clear self.recyclable_list;
      })
      heap_start

-- The large object space: one free chunk.
unfoldable pub init_large : GlobalAllocator → ℕ → ℕ → GlobalAllocator
init_large self large_start initial_size =
    let m =
      Chunk.write self.large_chunk_list.chunks large_start
        (Chunk.init (sub64 initial_size chunk_header_size)) in
    record self {
      large_heap_size = initial_size;
      large_heap_start = large_start;
      large_heap_stop = add64 large_start initial_size;
      large_chunk_list =
          ChunkList.push (ChunkList.clear (record (self.large_chunk_list) { chunks = m }))
            large_start;
    }

module _ (hash : ℕ → ℕ) (memory_limit free_space_divisor small_map large_map : ℕ) where
  unfoldable pub init : ℕ → GlobalAllocator → ℕ → Run GlobalAllocator
  init fuel self initial_size = do
    assert (leb (block_size * 2) initial_size)
    assert (initial_size % block_size == 0)
    s ←
        init_small fuel
          (record self {
            memory_limit = memory_limit;
            free_space_divisor = free_space_divisor;
            allocated_bytes_since_collect = 0;
            total_allocated_bytes = 0;
          })
          (map_and_align small_map initial_size) initial_size
    finalizers ← Hash.create hash fuel 8
    ok (record (init_large s (map_and_align large_map initial_size) initial_size) {
      finalizers = finalizers;
    })
