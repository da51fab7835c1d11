-- ===== src/LocalAllocator/Recycled.antt =====
-- The holes that the recycling of src/global_allocator.c links are those that the bump allocation of
-- src/local_allocator.c walks through.
use gc.Base.{ℕ, ◌+◌, ◌%◌, ◌<◌, ◌≡◌, ◌↔◌, refl, true, Returns, List, [], ◌∷◌, map, arith}
use gc.Memory.{Hole}
use gc.Block
use gc.Block.{Block, block_size, line_count}
use gc.Block.Address.{IsBlock}
use gc.GlobalAllocator.Recycle.Gaps.{Lines, line_at, InGaps, IsFreeLine, Sorted, Linked, head_of}
use gc.GlobalAllocator.Recycle.BlockSteps.{recycle_block-Step}
use gc.GlobalAllocator.Recycle.Blocks.{Recycled, Flagged, marks_of}
use gc.GlobalAllocator.{GlobalAllocator}
use gc.GlobalAllocator.Recycle.{recycle_block}
use gc.LocalAllocator.Holes.{Gap, Chain}

-- The addresses of a gap.
abbrev pub gap_at : ℕ → Lines → Gap
gap_at block lines = (line_at block lines.0, line_at block lines.1)

Linked-Chain :
    (block i : ℕ) (holes : ℕ → Hole) (next : ℕ) (gaps : List Lines)
    → block % block_size ≡ 0
    → Sorted i gaps
    → Linked block holes gaps
    → next ≡ head_of block gaps
    → Chain holes block next (map (gap_at block) gaps)
Linked-Chain block i holes next [] aligned sorted linked e = e
Linked-Chain block i holes next (gap ∷ gaps) aligned sorted (limit, on, rest) e = (
  e,
  (omega arith, omega arith, omega arith, omega arith),
  limit,
  Linked-Chain block (gap.1 + 1) holes ((holes (line_at block gap.0)).next) gaps aligned sorted.3
      rest on,
)

Recycled-Chain :
    (block : ℕ) (b b' : Block) (holes : ℕ → Hole)
    → IsBlock block
    → (r : Recycled block b b' holes)
    → Chain holes block (head_of block r.gaps) (map (gap_at block) r.gaps)
Recycled-Chain block b b' holes valid r =
    Linked-Chain block 0 holes (head_of block r.gaps) r.gaps valid.aligned r.sorted r.linked refl

-- The recycling of a marked block, aligned and not NULL, ends and fails no assertion. The lines,
-- but the first, that are not marked and that stand behind a line that is not marked are then the
-- gaps of the block, linked as the chain of holes that the bump allocation of the local allocator
-- walks through. The block is recyclable with the first of them, or unavailable if there is none.
pub recycle_block-Chain :
    (s : GlobalAllocator) (block : ℕ)
    → IsBlock block
    → Block.is_marked (s.blocks block) ≡ true
    → Returns (recycle_block s block) λ s'.
      (gaps : List Lines) × ((j : ℕ)
        → InGaps j gaps ↔ ((0 < j) × IsFreeLine (marks_of (s.blocks block)) j))
      × Chain s'.holes block (head_of block gaps) (map (gap_at block) gaps)
      × Flagged gaps (s'.blocks block)
recycle_block-Chain s block valid marked =
    let (s', run, step) = recycle_block-Step s block valid in
    let r = step.done.recycled marked in
    (
      s',
      run,
      (
        r.gaps,
        r.exact,
        Recycled-Chain block (s.blocks block) (s'.blocks block) s'.holes valid r,
        r.flagged,
      ),
    )
