-- ===== src/GlobalAllocator/Recycle/Gaps.antt =====
-- What the scan of a block's lines in src/global_allocator.c is to find: the gaps between its used
-- lines, by line index.
use gc.Base.{ℕ, ◌+◌, ◌-◌, ◌*◌, ◌≤◌, ◌<◌, ◌≡◌, ◌⊎◌, Bool, false, Option, none, some, List, [], ◌∷◌}
use gc.Memory.{Hole}
use gc.LineHeader.{line_size}
use gc.Block.{line_count}
use gc.GlobalAllocator.Recycle.{null}

-- Lines from the first index to the one in front of the second.
abbrev pub Lines : Type 0
Lines = ℕ × ℕ

abbrev pub line_at : ℕ → ℕ → ℕ
line_at block i = block + line_size + i * line_size

abbrev pub InGaps : ℕ → List Lines → Type 0
InGaps j [] = ⊥
InGaps j (gap ∷ gaps) = ((gap.0 ≤ j) × (j < gap.1)) ⊎ InGaps j gaps

-- The gaps lie behind the index, in order, with a line between one and the next.
abbrev pub Sorted : ℕ → List Lines → Type 0
Sorted i [] = Unit {0}
Sorted i (gap ∷ gaps) =
    (i < gap.0) × (gap.0 < gap.1) × (gap.1 ≤ line_count) × Sorted (gap.1 + 1) gaps

-- A line is free if neither it nor the line in front of it is marked.
abbrev pub IsFreeLine : (ℕ → Bool) → ℕ → Type 0
IsFreeLine marks j = (j < line_count) × (marks j ≡ false) × (marks (j - 1) ≡ false)

abbrev pub head_of : ℕ → List Lines → ℕ
head_of block [] = null
head_of block (gap ∷ gaps) = line_at block gap.0

-- Each gap starts with a hole that says where the gap ends and where the next one starts.
abbrev pub Linked : ℕ → (ℕ → Hole) → List Lines → Type 0
Linked block holes [] = Unit {0}
Linked block holes (gap ∷ gaps) =
    ((holes (line_at block gap.0)).limit ≡ line_at block gap.1)
    × ((holes (line_at block gap.0)).next ≡ head_of block gaps)
    × Linked block holes gaps

-- The link of a hole that the gaps follow.
abbrev pub link : ℕ → List Lines → ℕ → ℕ
link block [] next = next
link block (gap ∷ gaps) next = line_at block gap.0

abbrev pub first_line : Option ℕ → List Lines → Option ℕ
first_line (some i) gaps = some i
first_line none [] = none
first_line none (gap ∷ gaps) = some gap.0
