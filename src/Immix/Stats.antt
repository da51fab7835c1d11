-- ===== src/Immix/Stats.antt =====
-- The statistics of src/immix.c: how many objects there are, and how many bytes of them are the
-- mutator's.
use gc.Base.{
  ℕ, zero, suc, ◌+◌, ltb, ◌==◌, if◌then◌else◌, not, add64, sub64, Run, ok, out_of_fuel, ◌>>=◌,
}
use gc.Object.{object_header}
use gc.Chunk
use gc.ChunkList.{ChunkList}
use gc.LineHeader.{line_size, contains_object, get_offset}
use gc.Block
use gc.Block.{block_size, line_count}
use gc.GlobalAllocator.{GlobalAllocator}

pub record Stats : Type 0 where
  pub count : ℕ
  pub bytes : ℕ

unfoldable pub count_object : Stats → ℕ → Stats
count_object t size = record {
  count = add64 t.count 1;
  bytes = add64 t.bytes (sub64 size object_header);
}

unfoldable pub count_objects : ℕ → GlobalAllocator → ℕ → ℕ → Stats → Run Stats
count_objects zero s line offset t = out_of_fuel
count_objects (suc fuel) s line offset t =
    let size = (s.objects (add64 line offset)).size in
    let rest = count_objects fuel s line (offset + size) (count_object t size) in
    if ltb offset line_size then (if size == 0 then ok t else rest) else ok t

unfoldable pub count_lines : ℕ → ℕ → GlobalAllocator → ℕ → ℕ → Stats → Run Stats
count_lines zero fuel s block line_index t = ok t
count_lines (suc rounds) fuel s block line_index t =
    let header = (s.blocks block).line_headers line_index in
    let objects = Block.line block line_index >>= λ line.
    get_offset header >>= λ offset. count_objects fuel s line offset t in
    (if contains_object header then objects else ok t) >>= λ u.
    count_lines rounds fuel s block (line_index + 1) u

unfoldable pub count_blocks : ℕ → ℕ → GlobalAllocator → ℕ → Stats → Run Stats
count_blocks zero fuel s block t = out_of_fuel
count_blocks (suc rounds) fuel s block t =
    let rest = count_lines line_count fuel s block 0 t >>= λ u.
    count_blocks rounds fuel s (add64 block block_size) u in
    if ltb block s.small_heap_stop then rest else ok t

unfoldable pub small_heap_stats : ℕ → GlobalAllocator → Run Stats
small_heap_stats fuel s =
    count_blocks fuel fuel s s.small_heap_start (record { count = 0; bytes = 0 })

unfoldable pub count_chunks : ℕ → ChunkList → ℕ → Stats → Run Stats
count_chunks zero s chunk t = out_of_fuel
count_chunks (suc fuel) s chunk t =
    let c = s.chunks chunk in
    let counted = if not (c.allocated == 0) then count_object t c.object.size else t in
    let rest = count_chunks fuel s c.next counted in if chunk == Chunk.null then ok t else rest

unfoldable pub large_heap_stats : ℕ → GlobalAllocator → Run Stats
large_heap_stats fuel s =
    count_chunks fuel s.large_chunk_list s.large_chunk_list.first (record { count = 0; bytes = 0 })

unfoldable pub heap_usage : ℕ → GlobalAllocator → Run ℕ
heap_usage fuel s = small_heap_stats fuel s >>= λ small.
    large_heap_stats fuel s >>= λ large. ok (add64 small.bytes large.bytes)
