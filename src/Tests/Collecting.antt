-- ===== src/Tests/Collecting.antt =====
-- Allocation with the collector of src/collector.c: the chunk that the data segment points into is not
-- marked before the collection, and marked behind it.
use gc.Base.{
  ℕ, ◌+◌, ◌≤◌, ◌≡◌, ◌^◌, refl, ok, Run, Returns, ◌>>=◌, arith, [], ◌∷◌, ◌==◌, if◌then◌else◌, add64,
}
use gc.Object
use gc.Object.{object_header}
use gc.Chunk
use gc.Chunk.{Chunks}
use gc.ChunkList
use gc.ChunkList.{ChunkList}
use gc.ChunkList.Layout.{Cell, Cells}
use gc.ChunkList.Find.{here, there, StandsAt-le}
use gc.Block
use gc.BlockList
use gc.LineHeader
use gc.LineHeader.{word_size}
use gc.Stack
use gc.Memory.{init_hole}
use gc.Hash
use gc.GlobalAllocator
use gc.GlobalAllocator.{GlobalAllocator, Environment, round_to_next_multiple, allocate_large}
use gc.GlobalAllocator.Recycle
use gc.GlobalAllocator.Finalizers
use gc.GlobalAllocator.Large.{HasLayout}
use gc.GlobalAllocator.Grow.{IsMapped}
use gc.GlobalAllocator.Allocated.{Keeps, Collects}
use gc.GlobalAllocator.Allocate.{PassesLimit, Result, allocate_large-Allocated}
use gc.GlobalAllocator.NextBlock.{next_free_block}
use gc.GlobalAllocator.NextBlock.Pushed.{HasBlocks}
use gc.GlobalAllocator.NextBlock.Free.{Recycles, Supplied, Hands, Stops, next_free_block-Handed}
use gc.Collector
use gc.Collector.{Program}
use gc.Collector.State.{scan_object}
use gc.Collector.Small
use gc.Tests.Chunks.{base}
use gc.Tests.Allocator.{state, env, ceil_log2-IsCeilLog2}

abbrev fresh : Cell
fresh = record { allocated = 1; object = record { size = 48; marked = 0; atomic = 0 } }

abbrev marked : Cell
marked = record { allocated = 1; object = record { size = 48; marked = 1; atomic = 0 } }

abbrev unreached : Cell
unreached = record { allocated = 1; object = record { size = 240; marked = 0; atomic = 0 } }

abbrev freed : Cell
freed = record { allocated = 0; object = record { size = 240; marked = 0; atomic = 0 } }

abbrev before : Cells
before = fresh ∷ unreached ∷ []

abbrev after : Cells
after = marked ∷ freed ∷ []

abbrev memory : Chunks
memory p =
    if p == base
    then record { next = base + 64; allocated = 1; object = fresh.object }
    else record { next = 0; allocated = 1; object = unreached.object }

abbrev full : GlobalAllocator
full = record state {
  large_chunk_list = record { chunks = memory; first = base; last = base + 64; size = 2 };
}

-- A program whose data segment is one word, which points into the first chunk.
abbrev program : Program
program = record {
  data_start = 0x1000;
  data_end = 0x1008;
  bss_start = 0x2000;
  bss_end = 0x2000;
  words = λ a. if a == 0x1000 then base + 40 else 0;
  hash = λ key. key;
  callback = λ f s. ok s;
  finalizer = λ f pointer s. s;
}

abbrev gc_collect : GlobalAllocator → Run GlobalAllocator
gc_collect s =
    Collector.collect program 200 (record {
      global_allocator = s;
      collect_callback = 0;
      roots = record { buffer = λ k. 0; cursor = 0 };
      is_collecting = 0;
    })
    >>= λ c. ok c.global_allocator

collected : Returns (gc_collect full) λ s.
    HasLayout s after
    × IsMapped s
    × (s.large_heap_start ≡ base)
    × HasBlocks s (0x200000 ∷ 0x208000 ∷ [])
unfolding add64 init_hole scan_object Object.is_marked Object.mark Object.unmark Object.contains
    Object.mutator_address Object.mutator_size Chunk.write Chunk.is_allocated Chunk.chunk_size
    Chunk.mark Chunk.unmark Chunk.is_marked Chunk.mutator_address Chunk.contains ChunkList.find_loop
    ChunkList.find ChunkList.limit ChunkList.merge ChunkList.skip_unmarked ChunkList.set_free
    ChunkList.free_run ChunkList.sweep_loop ChunkList.sweep LineHeader.clear LineHeader.is_marked
    LineHeader.contains_object Block.write Block.init Block.set_free Block.is_marked Block.unmark
    Block.line_header Block.set_line_header Block.line Block.stop Block.set_flag BlockList.clear
    BlockList.is_empty BlockList.set_next BlockList.push Stack.is_empty Stack.write Stack.push
    Stack.pop Stack.size Hash.delete_if GlobalAllocator.in_small_heap GlobalAllocator.in_large_heap
    GlobalAllocator.in_heap GlobalAllocator.reset_counters Recycle.recycle_block
    Recycle.recycle_loop Recycle.recycle_blocks Finalizers.finalize_objects Small.unmark_objects
    Small.unmark_line Small.unmark_lines Small.unmark_blocks Small.unmark_small_objects
    Collector.set_collecting Collector.unmark_loop Collector.unmark_large_objects
    Collector.mark_object Collector.mark_chunk Collector.add_roots Collector.visit
    Collector.scan_region Collector.mark_loop Collector.mark Collector.sweep
    Collector.call_collect_callback Collector.collect LineHeader.unmark Hash.clear_tombstones
    Hash.resize Hash.grow_capacity
collected = (
  _,
  refl,
  (
    record {
      layout = record {
        positive = omega arith;
        bounded = omega arith;
        tiles = (refl, omega arith, (refl, omega arith, refl));
        first = refl;
        last = refl;
        size = refl;
      };
      extends = refl;
    },
    record { mapped = omega arith; limited = omega arith; within = omega arith },
    refl,
    record {
      holds = record {
        chain = (refl, omega arith, (omega arith, tt), (refl, omega arith, tt, refl));
        last = refl;
        size = refl;
      };
      inside = (omega arith, omega arith, (omega arith, omega arith, tt));
      count = omega arith;
      positive = omega arith;
      extends = refl;
      mapped = omega arith;
      limited = omega arith;
      within = omega arith;
      nonempty = omega arith;
    },
  ),
)

abbrev collecting : Environment
collecting = record env { gc_collect = gc_collect }

-- The chunk that the data segment reaches is live.
abbrev IsLive : ℕ → Type 0
IsLive r = r ≡ base

kept : Keeps IsLive base before after
kept r d (here e) a live = (marked, (refl, refl, refl), here e)
kept r d (there at) a live = absurd (omega (arith, StandsAt-le at))

full-Collects : Collects collecting IsLive full before
full-Collects =
    let (s, run, (layout, mapped, start, _)) = collected in
    record {
      after = s;
      chunks = after;
      runs = run;
      layout = layout;
      mapped = mapped;
      same_start = start;
      keeps = kept;
    }

full-HasLayout : HasLayout full before
full-HasLayout = record {
  layout = record {
    positive = omega arith;
    bounded = omega arith;
    tiles = (refl, omega arith, (refl, omega arith, refl));
    first = refl;
    last = refl;
    size = refl;
  };
  extends = refl;
}

full-IsMapped : IsMapped full
full-IsMapped = record { mapped = omega arith; limited = omega arith; within = omega arith }

abbrev fuel : ℕ
fuel = 2 ^ 60

fuel_enough : 2 ^ 60 ≤ fuel
fuel_enough = omega arith

-- No chunk is free, so the allocator collects.
allocate_large-Allocated_example :
    Result IsLive collecting ceil_log2-IsCeilLog2 fuel fuel_enough
      (PassesLimit IsLive collecting ceil_log2-IsCeilLog2 fuel fuel_enough full
        (round_to_next_multiple 100 word_size))
      full
      before
      (round_to_next_multiple 100 word_size)
      0
      (allocate_large collecting fuel full 100 0)
allocate_large-Allocated_example =
    allocate_large-Allocated IsLive collecting ceil_log2-IsCeilLog2 fuel fuel_enough 100 0
      full-Collects (omega arith) full-HasLayout full-IsMapped (omega arith)

full-HasBlocks : HasBlocks full []
full-HasBlocks = record {
  holds = record { chain = refl; last = refl; size = refl };
  inside = tt;
  count = omega arith;
  positive = omega arith;
  extends = refl;
  mapped = omega arith;
  limited = omega arith;
  within = omega arith;
  nonempty = omega arith;
}

full-Recycles : Recycles collecting full
full-Recycles =
    let (s, run, (_, _, _, blocks)) = collected in
    record { after = s; recycled = 0x200000 ∷ 0x208000 ∷ []; runs = run; blocks = blocks }

-- The free list is empty, and the collector frees both blocks.
next_free_block-Handed_example :
    Hands
      (Stops collecting 4 full)
      (Supplied collecting full [])
      (next_free_block collecting 4 full)
next_free_block-Handed_example =
    next_free_block-Handed collecting 4 [] full-Recycles (omega arith) full-HasBlocks
