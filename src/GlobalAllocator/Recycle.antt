-- ===== src/GlobalAllocator/Recycle.antt =====
-- `GC_GlobalAllocator_recycleBlocks` of src/global_allocator.c: after the marking it sorts the blocks
-- into the two lists, and writes and links the holes of a recycled block.
pub mod Gaps
pub mod Steps
pub mod Scanned
pub mod Found
pub mod Opening
pub mod Swept
pub mod Blocks
pub mod BlockSteps
pub mod Sorting
pub mod Queues
pub mod Lists
use gc.Base.{
  ℕ, zero, suc, ◌+◌, ◌-◌, not, ◌&&◌, Option, none, some, ltb, ◌==◌, if◌then◌else◌, add64, Run, ok,
  out_of_fuel, ◌>>=◌,
}
use gc.LineHeader
use gc.Block
use gc.Block.{Block, block_size, line_count, set_line_header}
use gc.BlockList
use gc.Memory.{Hole, init_hole}
use gc.GlobalAllocator.{GlobalAllocator}

abbrev pub null : ℕ
null = 0

-- The variables of the loop over a block's lines. No free line so far is INVALID_LINE_INDEX.
pub record Scan : Type 0 where
  pub self : Block
  pub holes : ℕ → Hole
  pub first_free_line_index : Option ℕ
  pub hole : ℕ
  pub previous_hole : ℕ

unfoldable pub write_hole : (ℕ → Hole) → ℕ → Hole → (ℕ → Hole)
write_hole holes p hole q = if q == p then hole else holes q

-- `LineHeader_clear` of a line.
unfoldable pub clear_line : Block → ℕ → Block
clear_line self line_index =
    set_line_header self line_index (LineHeader.clear (self.line_headers line_index))

-- A marked line ends the hole in front of it.
unfoldable pub close_hole : Scan → ℕ → Scan
unfolding write_hole
close_hole s line = record s {
  holes = write_hole s.holes s.hole (record (s.holes s.hole) { limit = line });
  previous_hole = s.hole;
  hole = null;
}

-- A hole starts at a line, and the hole in front of it is linked to it.
unfoldable pub open_hole : Scan → ℕ → ℕ → Scan
unfolding write_hole
open_hole s line_index line =
    let holes = write_hole s.holes line init_hole in
    record s {
      self = clear_line s.self line_index;
      first_free_line_index = elim (s.first_free_line_index) [
        | none ↦ some line_index
        | some i ↦ some i
      ];
      hole = line;
      holes =
          if s.previous_hole == null
          then holes
          else write_hole holes s.previous_hole (record (holes s.previous_hole) { next = line });
    }

-- The body of the loop, and the line index behind it.
unfoldable pub scan_line : ℕ → Scan → ℕ → Run (Scan × ℕ)
scan_line block s line_index =
    let close = Block.line block line_index >>= λ line. ok (close_hole s line, line_index + 1) in
    let cleared = record s { self = clear_line s.self line_index } in
    let start = Block.line block (line_index + 1) >>= λ line.
    ok (open_hole cleared (line_index + 1) line, line_index + 2) in
    let free =
      if (s.hole == null) && not (line_index == line_count - 1)
      then (if LineHeader.is_marked (cleared.self.line_headers (line_index + 1))
          then ok (cleared, line_index + 1)
          else start)
      else ok (cleared, line_index + 1) in
    let used = if s.hole == null then ok (s, line_index + 1) else close in
    if LineHeader.is_marked (s.self.line_headers line_index) then used else free

unfoldable pub scan_lines : ℕ → ℕ → Scan → ℕ → Run Scan
scan_lines zero block s line_index = out_of_fuel
scan_lines (suc fuel) block s line_index =
    let rest = scan_line block s line_index >>= λ r. scan_lines fuel block r.0 r.1 in
    if ltb line_index line_count then rest else ok s

-- A hole that the last line does not end reaches to the end of the block.
unfoldable pub close_last : ℕ → Scan → Scan
unfolding write_hole
close_last block s =
    if not (s.hole == null) && ((s.holes s.hole).limit == null)
    then record s {
      holes = write_hole s.holes s.hole (record (s.holes s.hole) { limit = Block.stop block });
    }
    else s

-- The block is put on the recyclable list, unless it has no free line.
unfoldable pub recycle_scanned : GlobalAllocator → ℕ → Scan → GlobalAllocator
recycle_scanned self block s = elim (s.first_free_line_index) [
  | none ↦ record self {
    blocks = Block.write self.blocks block (Block.set_unavailable s.self);
    holes = s.holes;
  }
  | some i ↦
      let r =
        BlockList.push (Block.write self.blocks block (Block.set_recyclable s.self i))
          self.recyclable_list block in
      record self { blocks = r.0; recyclable_list = r.1; holes = s.holes }
]

unfoldable pub recycle_block : GlobalAllocator → ℕ → Run GlobalAllocator
recycle_block self block =
    let start : Scan = record {
      self = self.blocks block;
      holes = self.holes;
      first_free_line_index = none;
      hole = null;
      previous_hole = null;
    } in
    let recycle = scan_lines (line_count + 1) block start 0 >>= λ s.
    ok (recycle_scanned self block (close_last block s)) in
    let r =
      BlockList.push (Block.write self.blocks block (Block.set_free (self.blocks block)))
        self.free_list block in
    if not (Block.is_marked (self.blocks block))
    then ok (record self { blocks = r.0; free_list = r.1 })
    else recycle

unfoldable pub recycle_loop : ℕ → GlobalAllocator → ℕ → Run GlobalAllocator
recycle_loop zero self block = out_of_fuel
recycle_loop (suc fuel) self block =
    let rest = recycle_block self block >>= λ s. recycle_loop fuel s (add64 block block_size) in
    if ltb block self.small_heap_stop then rest else ok self

unfoldable pub recycle_blocks : ℕ → GlobalAllocator → Run GlobalAllocator
recycle_blocks fuel self =
    recycle_loop fuel
      (record self {
        free_list = BlockList.clear self.free_list;
        recyclable_list = BlockList.clear self.recyclable_list;
      })
      self.small_heap_start
