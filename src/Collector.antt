-- ===== src/Collector.antt =====
-- src/collector.c and include/collector.h: the marking from the roots, and the whole collection. The
-- state holds the global allocator with its memory. The words that the marking reads, in stacks, data
-- segments and objects, are the parameter `words`: the marking writes headers only.
pub mod State
pub mod Small
pub mod Marking
pub mod Unmark
use gc.Base.{
  ℕ, zero, suc, ◌+◌, Bool, true, false, not, ◌&&◌, ◌||◌, ltb, leb, ◌==◌, if◌then◌else◌, add64, Run,
  ok, out_of_fuel, ◌>>=◌, ◌>>◌, assert,
}
use gc.Object
use gc.Object.{Object, object_header}
use gc.Chunk
use gc.Chunk.{chunk_header_size}
use gc.ChunkList
use gc.Stack
use gc.Stack.{Stack}
use gc.LineHeader.{word_size}
use gc.GlobalAllocator.{GlobalAllocator, in_small_heap, in_large_heap, reset_counters}
use gc.GlobalAllocator.Recycle.{recycle_blocks}
use gc.GlobalAllocator.Finalizers.{finalize_objects}
use gc.Collector.State.{Collector, scan_object}
use gc.Collector.Small.{unmark_small_objects, find_and_mark_small_object}

abbrev pub null : ℕ
null = 0

-- What the fresh mapping of the stack holds is the parameter `fresh`.
unfoldable pub init : (ℕ → ℕ) → GlobalAllocator → Collector
init fresh allocator = record {
  global_allocator = allocator;
  collect_callback = null;
  roots = Stack.init fresh;
  is_collecting = 0;
}

unfoldable pub register_collect_callback : Collector → ℕ → Collector
register_collect_callback self callback = record self { collect_callback = callback }

unfoldable pub set_collecting : Collector → ℕ → Run Collector
set_collecting self value =
    assert ((value == 0) || (value == 1)) >> ok (record self { is_collecting = value })

unfoldable pub is_collecting : Collector → ℕ
is_collecting self = self.is_collecting

unfoldable pub unmark_loop : ℕ → Collector → ℕ → Run Collector
unmark_loop zero self chunk = out_of_fuel
unmark_loop (suc fuel) self chunk =
    let heap = self.global_allocator in
    let list = heap.large_chunk_list in
    let m = Chunk.write list.chunks chunk (Chunk.unmark (list.chunks chunk)) in
    let unmarked = record self {
      global_allocator = record heap { large_chunk_list = record list { chunks = m } };
    } in
    let rest = unmark_loop fuel unmarked ((m chunk).next) in if chunk == null then ok self else rest

unfoldable pub unmark_large_objects : ℕ → Collector → Run Collector
unmark_large_objects fuel self = unmark_loop fuel self self.global_allocator.large_chunk_list.first

-- `Object_mark` of a chunk's object, and its scan.
unfoldable pub mark_object : Collector → ℕ → Collector
mark_object self chunk =
    let heap = self.global_allocator in
    let list = heap.large_chunk_list in
    let m = Chunk.write list.chunks chunk (Chunk.mark (list.chunks chunk)) in
    scan_object
      (record self {
        global_allocator = record heap { large_chunk_list = record list { chunks = m } };
      })
      (add64 chunk chunk_header_size) (m chunk).object

unfoldable pub mark_chunk : Collector → ℕ → Collector
mark_chunk self chunk =
    let c = self.global_allocator.large_chunk_list.chunks chunk in
    if not (chunk == null) && Chunk.is_allocated c
    then (if not (Object.is_marked c.object) then mark_object self chunk else self)
    else self

unfoldable pub add_roots : Collector → ℕ → ℕ → Run Collector
add_roots self top bottom =
    assert (leb top bottom) >> ok (record self { roots = Stack.push self.roots top bottom })

-- The body of the inner loop of `GC_Collector_mark`, for a word taken as a pointer.
unfoldable pub visit : ℕ → Collector → ℕ → Run Collector
visit fuel self pointer =
    let heap = self.global_allocator in
    let large =
      ChunkList.find fuel heap.large_chunk_list pointer >>= λ chunk. ok (mark_chunk self chunk) in
    let small = find_and_mark_small_object fuel self pointer in
    if in_small_heap heap pointer
    then small
    else (if in_large_heap heap pointer then large else ok self)

module _ (words : ℕ → ℕ) where
  unfoldable pub scan_region : ℕ → ℕ → Collector → ℕ → ℕ → Run Collector
  scan_region zero fuel self sp bottom = out_of_fuel
  scan_region (suc rounds) fuel self sp bottom =
      let rest =
        visit fuel self (words sp) >>= λ c. scan_region rounds fuel c (add64 sp word_size) bottom in
      if ltb sp bottom then rest else ok self

  -- One round of the outer loop: a region from the stack.
  unfoldable pub mark_loop : ℕ → ℕ → Collector → Run Collector
  mark_loop zero fuel self = out_of_fuel
  mark_loop (suc rounds) fuel self =
      let r = Stack.pop self.roots in
      let popped = record self { roots = r.0 } in
      let rest = scan_region fuel fuel popped r.2 r.3 >>= λ c. mark_loop rounds fuel c in
      if r.1 then rest else ok self

  unfoldable pub mark : ℕ → Collector → Run Collector
  mark fuel self = mark_loop fuel fuel self

unfoldable pub sweep : ℕ → Collector → Run Collector
sweep fuel self = recycle_blocks fuel self.global_allocator >>= λ heap.
    ChunkList.sweep fuel heap.large_chunk_list >>= λ list.
    ok (record self { global_allocator = record heap { large_chunk_list = list } })

-- Where the data segments lie, and what the program's functions do: `callback f` is the collect
-- callback at `f`, which may add roots.
pub record Program : Type 0 where
  pub data_start : ℕ
  pub data_end : ℕ
  pub bss_start : ℕ
  pub bss_end : ℕ
  pub words : ℕ → ℕ
  pub hash : ℕ → ℕ
  pub callback : ℕ → Collector → Run Collector
  pub finalizer : ℕ → ℕ → GlobalAllocator → GlobalAllocator

module _ (program : Program) (fuel : ℕ) where
  unfoldable pub call_collect_callback : Collector → Run Collector
  call_collect_callback self =
      if not (self.collect_callback == null)
      then program.callback self.collect_callback self
      else ok self

  unfoldable pub collect : Collector → Run Collector
  collect self = do
    unmarked_small ← unmark_small_objects fuel self
    unmarked ← unmark_large_objects fuel unmarked_small
    with_data ← add_roots unmarked program.data_start program.data_end
    with_bss ← add_roots with_data program.bss_start program.bss_end
    rooted ← call_collect_callback with_bss
    marked ← mark program.words fuel rooted
    heap ←
        finalize_objects program.hash fuel program.finalizer
          (reset_counters marked.global_allocator)
    sweep fuel (record marked { global_allocator = heap })
