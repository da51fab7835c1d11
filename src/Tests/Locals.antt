-- ===== src/Tests/Locals.antt =====
-- A local allocator whose gap is too small for the object, with a hole behind it, and a request of
-- 100 bytes.
use gc.Base.{
  ℕ, ◌-◌, ◌≤◌, ◌<◌, ◌≡◌, ◌⊎◌, ◌↔◌, ◌==◌, if◌then◌else◌, true, refl, List, [], ◌∷◌, map, arith,
  Returns,
}
use gc.Memory.{LocalAllocator}
use gc.Block
use gc.Block.{free}
use gc.GlobalAllocator.Recycle.{recycle_block, recycle_blocks}
use gc.GlobalAllocator.Recycle.Gaps.{Lines, InGaps, IsFreeLine, head_of}
use gc.GlobalAllocator.Recycle.Blocks.{Flagged, marks_of}
use gc.GlobalAllocator.Recycle.Sorting.{Swept, Listed, emptied, recycle_blocks-Listed}
use gc.LocalAllocator.Recycled.{gap_at, recycle_block-Chain}
use gc.Block.Address.{IsBlock}
use gc.Object.{object_header}
use gc.GlobalAllocator.{GlobalAllocator, allocate_large}
use gc.Immix.{malloc_with_atomic}
use gc.Immix.Route.{IsSmallSize, malloc_with_atomic-IsSmallSize}
use gc.LocalAllocator.{large_object_size, allocate_small_loop, try_allocate_small}
use gc.LocalAllocator.Holes.{Chain, Placed, first_fit, try_allocate_small-first_fit}
use gc.Tests.Allocator.{env, state}

abbrev local : LocalAllocator
local = record {
  block = 0x200000;
  cursor = 0x200200;
  limit = 0x200210;
  next = 0x200400;
  overflow_block = 0;
  overflow_cursor = 0;
  overflow_limit = 0;
}

abbrev local_state : GlobalAllocator
local_state = record state {
  local_allocators = λ p. local;
  holes = λ p. record { limit = 0x200600; next = 0 };
}

low-IsBlock : IsBlock 0x200000
low-IsBlock = record { aligned = refl; inside = omega arith }

try_allocate_small-first_fit_example : Returns (try_allocate_small env 1 2 local_state 0x5000 32) (
    Placed local_state 0x5000 0x200000 32
      (first_fit 32 ((0x200200, 0x200210) ∷ (0x200400, 0x200600) ∷ [])))
try_allocate_small-first_fit_example =
    try_allocate_small-first_fit env 1 0x5000 32 (omega arith) (omega arith) 2 local_state local
      ((0x200400, 0x200600) ∷ []) refl low-IsBlock (omega arith, omega arith, omega arith, refl)
      (refl, (omega arith, omega arith, omega arith, refl), refl, refl) (omega arith)

malloc_with_atomic-IsSmallSize_example :
    ((100 ≤ large_object_size - object_header)
      × ((rsize : ℕ) × IsSmallSize 100 rsize
          × (malloc_with_atomic env 1 local_state 0x5000 100 0
              ≡ allocate_small_loop env 1 1 local_state 0x5000 rsize 100 0)))
    ⊎ ((large_object_size - object_header < 100)
        × (malloc_with_atomic env 1 local_state 0x5000 100 0
            ≡ allocate_large env 1 local_state 100 0))
malloc_with_atomic-IsSmallSize_example =
    malloc_with_atomic-IsSmallSize env 1 local_state 0x5000 100 0

-- The first and the third line of the block are marked.
abbrev marked_headers : ℕ → ℕ
marked_headers i = if i == 0 then 1 else if i == 2 then 1 else 0

abbrev marked_state : GlobalAllocator
marked_state = record state {
  blocks = λ b. record {
    marked = 1;
    flag = free;
    first_free_line_index = 0;
    next = 0;
    line_headers = marked_headers;
  };
}

block_marked : Block.is_marked (marked_state.blocks 0x200000) ≡ true
unfolding Block.is_marked
block_marked = refl

recycle_block-Chain_example : Returns (recycle_block marked_state 0x200000) λ s'.
    (gaps : List Lines) × ((j : ℕ)
      → InGaps j gaps ↔ ((0 < j) × IsFreeLine (marks_of (marked_state.blocks 0x200000)) j))
    × Chain s'.holes 0x200000 (head_of 0x200000 gaps) (map (gap_at 0x200000) gaps)
    × Flagged gaps (s'.blocks 0x200000)
recycle_block-Chain_example = recycle_block-Chain marked_state 0x200000 low-IsBlock block_marked

recycle_blocks-Listed_example :
    Returns
      (recycle_blocks 4 marked_state)
      λ s'. Swept (emptied marked_state) 0x200000 0x210000 s' × Listed s' 0x200000 0x210000
recycle_blocks-Listed_example =
    recycle_blocks-Listed 4 marked_state (omega arith) refl (omega arith) (omega arith)
      (omega arith)
