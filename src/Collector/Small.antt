-- ===== src/Collector/Small.antt =====
-- The small object space in src/collector.c: the unmarking of its objects, and the search for the
-- object that a pointer points into.
use gc.Base.{
  ℕ, zero, suc, ◌+◌, none, some, ltb, leb, ◌==◌, if◌then◌else◌, add64, Run, ok, aborted,
  out_of_fuel, ◌>>=◌,
}
use gc.Object
use gc.Object.{Object}
use gc.LineHeader
use gc.LineHeader.{line_size, contains_object, get_offset}
use gc.Block
use gc.Block.{Block, block_size, line_count, set_line_header}
use gc.GlobalAllocator.{GlobalAllocator}
use gc.Collector.State.{Collector, scan_object}

abbrev pub large_object_size : ℕ
large_object_size = 8192

unfoldable pub write_object : GlobalAllocator → ℕ → Object → GlobalAllocator
write_object s p object = record s { objects = λ q. if q == p then object else s.objects q }

-- The objects of a line from an offset on are unmarked, up to one of size 0.
unfoldable pub unmark_objects : ℕ → GlobalAllocator → ℕ → ℕ → Run GlobalAllocator
unfolding write_object
unmark_objects zero s line offset = out_of_fuel
unmark_objects (suc fuel) s line offset =
    let at = add64 line offset in
    let size = (s.objects at).size in
    let rest =
      unmark_objects fuel (write_object s at (Object.unmark (s.objects at))) line (offset + size) in
    if ltb offset line_size then (if size == 0 then ok s else rest) else ok s

unfoldable pub unmark_line : ℕ → GlobalAllocator → ℕ → ℕ → Run GlobalAllocator
unmark_line fuel s block line_index =
    let header = LineHeader.unmark ((s.blocks block).line_headers line_index) in
    let unmarked = record s {
      blocks = Block.write s.blocks block (set_line_header (s.blocks block) line_index header);
    } in
    let objects = Block.line block line_index >>= λ line.
    get_offset header >>= λ offset. unmark_objects fuel unmarked line offset in
    if contains_object header then objects else ok unmarked

-- The lines from an index on, with the rounds left.
unfoldable pub unmark_lines : ℕ → ℕ → GlobalAllocator → ℕ → ℕ → Run GlobalAllocator
unmark_lines zero fuel s block line_index = ok s
unmark_lines (suc rounds) fuel s block line_index =
    unmark_line fuel s block line_index >>= λ t. unmark_lines rounds fuel t block (line_index + 1)

unfoldable pub unmark_blocks : ℕ → ℕ → GlobalAllocator → ℕ → Run GlobalAllocator
unmark_blocks zero fuel s block = out_of_fuel
unmark_blocks (suc rounds) fuel s block =
    let unmarked = record s {
      blocks = Block.write s.blocks block (Block.unmark (s.blocks block));
    } in
    let rest = unmark_lines line_count fuel unmarked block 0 >>= λ t.
    unmark_blocks rounds fuel t (add64 block block_size) in
    if ltb block s.small_heap_stop then rest else ok s

unfoldable pub unmark_small_objects : ℕ → Collector → Run Collector
unmark_small_objects fuel self =
    unmark_blocks fuel fuel self.global_allocator self.global_allocator.small_heap_start >>= λ heap.
    ok (record self { global_allocator = heap })

-- The do loop that marks each line of a medium object.
unfoldable pub mark_lines : ℕ → Block → ℕ → ℕ → ℕ → Run Block
mark_lines zero b line_index line stop = out_of_fuel
mark_lines (suc fuel) b line_index line stop =
    let marked = set_line_header b line_index (LineHeader.mark (b.line_headers line_index)) in
    let next = add64 line line_size in
    let rest = mark_lines fuel marked (line_index + 1) next stop in
    if ltb next stop then rest else ok marked

-- An object that is not marked yet is, with its block and its lines, and its memory is to be scanned.
unfoldable pub mark_small_object : ℕ → Collector → ℕ → ℕ → ℕ → ℕ → Run Collector
unfolding write_object
mark_small_object fuel self block line_index line address =
    let heap = self.global_allocator in
    let object = Object.mark (heap.objects address) in
    let b = Block.mark (heap.blocks block) in
    let starting =
      ok (set_line_header b line_index (LineHeader.mark (b.line_headers line_index))) in
    let exact = mark_lines fuel b line_index line (add64 address object.size) in
    (if leb object.size line_size then starting else exact) >>= λ lines.
    let marked = record (write_object heap address object) {
      blocks = Block.write heap.blocks block lines;
    } in
    ok (scan_object (record self { global_allocator = marked }) address object)

-- The objects of a line from an offset on, up to the one that the pointer points into.
unfoldable pub search_objects : ℕ → Collector → ℕ → ℕ → ℕ → ℕ → ℕ → Run Collector
search_objects zero self block line_index line offset pointer = out_of_fuel
search_objects (suc fuel) self block line_index line offset pointer =
    let at = add64 line offset in
    let object = self.global_allocator.objects at in
    let rest = search_objects fuel self block line_index line (offset + object.size) pointer in
    let found =
      if Object.is_marked object
      then ok self
      else mark_small_object fuel self block line_index line at in
    let search =
      if ltb large_object_size object.size
      then aborted
      else (if Object.contains at object pointer then found else rest) in
    if ltb offset line_size then (if object.size == 0 then ok self else search) else ok self

-- The lines in front of index `n`, from the last one down to one that has an object.
unfoldable pub search_lines : ℕ → ℕ → Collector → ℕ → ℕ → Run Collector
search_lines zero fuel self block pointer = ok self
search_lines (suc line_index) fuel self block pointer =
    Block.line_header (self.global_allocator.blocks block) line_index >>= λ header.
    let rest = search_lines line_index fuel self block pointer in
    let objects = Block.line block line_index >>= λ line.
    get_offset header >>= λ offset. search_objects fuel self block line_index line offset pointer in
    (if contains_object header then objects else rest)

-- The lines to search, as a number: those up to the pointer's, without it if its first object lies
-- behind the pointer.
unfoldable pub lines_before : Collector → ℕ → ℕ → ℕ → Run ℕ
lines_before self block line_index pointer =
    Block.line_header (self.global_allocator.blocks block) line_index >>= λ header.
    let offset_test = Block.line block line_index >>= λ line. get_offset header >>= λ offset.
    ok (if ltb pointer (add64 line offset) then line_index else line_index + 1) in
    (if contains_object header then offset_test else ok (line_index + 1))

unfoldable pub find_and_mark_small_object : ℕ → Collector → ℕ → Run Collector
find_and_mark_small_object fuel self pointer =
    let block = Block.from pointer in
    let search = λ (line_index : ℕ).
      lines_before self block line_index pointer >>= λ n. search_lines n fuel self block pointer in
    Block.line_index block pointer >>= λ index. elim index [
      | none ↦ ok self
      | some line_index ↦ search line_index
    ]
