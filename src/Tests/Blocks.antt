-- ===== src/Tests/Blocks.antt =====
-- A block with one object, and a queue of two blocks.
use gc.Base.{
  pos, ℕ, ◌+◌, ◌<◌, ◌≡◌, ◌⊎◌, refl, true, false, none, some, [], ◌∷◌, ◌++◌, arith, ◌==◌,
  if◌then◌else◌, ok, Returns,
}
use gc.LineHeader.{line_size, is_marked, contains_object, set_offset, get_offset}
use gc.LineHeader.Laws.{get_offset-set_offset}
use gc.Block
use gc.Block.{Block, Blocks, block_size, from, line_index, line_update}
use gc.Block.Address.{IsBlock, InLine, from_lem, line_index-InLine}
use gc.Block.LineUpdate.{Updated, line_update-Updated}
use gc.BlockList.{BlockList, push, shift}
use gc.BlockList.Queue.{Holds, push-Holds, shift-Holds}

get_offset-set_offset_example : Returns (set_offset 1 (pos 120)) λ header.
    (get_offset header ≡ ok 120)
    × (contains_object header ≡ true)
    × (is_marked header ≡ false)
    × (header < 256)
get_offset-set_offset_example = get_offset-set_offset 1 120 (omega arith) (omega arith)

-- The second block of a heap.
abbrev block : ℕ
block = 65536

aligned-IsBlock : IsBlock block
aligned-IsBlock = record { aligned = refl; inside = omega arith }

from_lem_example : from (block + 1000) ≡ block
from_lem_example = from_lem aligned-IsBlock (block + 1000) (omega arith) (omega arith)

line_index-InLine_example : Returns (line_index block (block + 1000)) λ r.
    ((i : ℕ) × (r ≡ some i) × InLine block i (block + 1000))
    ⊎ ((r ≡ none) × (block + 1000 < block + line_size))
line_index-InLine_example =
    line_index-InLine aligned-IsBlock (block + 1000) (omega arith) (omega arith)

abbrev used : Block
used = record {
  marked = 0;
  flag = Block.recyclable;
  first_free_line_index = 2;
  next = 0;
  line_headers = λ i. if i == 1 then 2 else 0;
}

line_update-Updated_example :
    Returns (line_update block used (block + 808)) (Updated block used (block + 808) 2)
line_update-Updated_example =
    line_update-Updated aligned-IsBlock used (block + 808) 2 (omega arith, omega arith, omega arith)
      (omega arith)

abbrev blocks : Blocks
blocks p = if p == block then record used { next = 131072 } else used

abbrev queue : BlockList
queue = record { first = block; last = 131072; size = 2 }

queue-Holds : Holds blocks queue (block ∷ 131072 ∷ [])
queue-Holds = record {
  chain = (refl, omega arith, (omega arith, tt), (refl, omega arith, tt, refl));
  last = refl;
  size = refl;
}

push-Holds_example :
    Holds
      (push blocks queue 32768).0
      (push blocks queue 32768).1
      ((block ∷ 131072 ∷ []) ++ 32768 ∷ [])
push-Holds_example =
    push-Holds blocks queue (block ∷ 131072 ∷ []) 32768 queue-Holds (omega arith)
      (omega arith, (omega arith, tt)) (omega arith)

shift-Holds_example :
    Holds blocks (shift blocks queue).0 (131072 ∷ []) × ((shift blocks queue).1 ≡ block)
shift-Holds_example = shift-Holds blocks queue block (131072 ∷ []) queue-Holds (omega arith)
