-- ===== src/GlobalAllocator/Recycle/Blocks.antt =====
-- `GC_GlobalAllocator_recycleBlocks`: what becomes of one block, and how the two lists say so.
use gc.Base.{
  ℕ, ◌<◌, ◌≡◌, ◌≢◌, ◌↔◌, refl, sym, ap, ◌∙◌, Bool, true, false, ◌==◌, ==_iff, Bool-cases, inl, inr,
  subst, List, [], ◌∷◌,
}
use gc.LineHeader
use gc.Memory.{Hole}
use gc.Block
use gc.Block.{Block, Blocks, BlockFlag, free, recyclable, unavailable, block_size, line_count}
use gc.BlockList
use gc.BlockList.{BlockList}
use gc.GlobalAllocator.{GlobalAllocator}
use gc.GlobalAllocator.Recycle.{null}
use gc.GlobalAllocator.Recycle.Gaps.{Lines, InGaps, Sorted, IsFreeLine, Linked}

abbrev pub SameButNext : Block → Block → Type 0
SameButNext b b' = (next : ℕ) × (b' ≡ record b { next = next })

pub SameButNext-trans : (a b c : Block) → SameButNext a b → SameButNext b c → SameButNext a c
SameButNext-trans a b c (n, e) (n', e') = (n', e' ∙ ap (λ x. relinked x n') e)
  where
    relinked : Block → ℕ → Block
    relinked x k = record x { next = k }

set_next-SameButNext : (m : Blocks) (p q a : ℕ) → SameButNext (m a) (BlockList.set_next m p q a)
unfolding BlockList.set_next
set_next-SameButNext m p q a = elim (Bool-cases (a == p)) [
  | inl same ↦ (q, rw same (rw ((==_iff a p).0 same) refl))
  | inr other ↦ ((m a).next, rw other refl)
]

pub push-SameButNext :
    (m : Blocks) (l : BlockList) (p a : ℕ) → SameButNext (m a) ((BlockList.push m l p).0 a)
unfolding BlockList.push
push-SameButNext m l p a = elim (Bool-cases (BlockList.is_empty l)) [
  | inl first ↦ rw first (set_next-SameButNext m p BlockList.null a)
  | inr more ↦ rw more (
      SameButNext-trans (m a) (BlockList.set_next m p BlockList.null a) _
        (set_next-SameButNext m p BlockList.null a)
        (set_next-SameButNext (BlockList.set_next m p BlockList.null) l.last p a))
]

-- What the flag and the first free line say of the gaps.
abbrev pub Flagged : List Lines → Block → Type 0
Flagged [] b = b.flag ≡ unavailable
Flagged (gap ∷ gaps) b = (b.flag ≡ recyclable) × (b.first_free_line_index ≡ gap.0)

abbrev pub marks_of : Block → ℕ → Bool
marks_of b j = LineHeader.is_marked (b.line_headers j)

-- The marked block at the address was `b`, and is `b'` now, with its holes.
pub record Recycled (block : ℕ) (b b' : Block) (holes : ℕ → Hole) : Type 0 where
  pub gaps : List Lines
  pub sorted : Sorted 0 gaps
  pub exact : (j : ℕ) → InGaps j gaps ↔ ((0 < j) × IsFreeLine (marks_of b) j)
  pub linked : Linked block holes gaps
  pub flagged : Flagged gaps b'
  pub same_mark : b'.marked ≡ b.marked
  pub kept : (j : ℕ) → marks_of b j ≡ true → b'.line_headers j ≡ b.line_headers j
  pub empty :
      (j : ℕ) → j < line_count → marks_of b j ≡ false → b'.line_headers j ≡ LineHeader.line_empty

-- What becomes of a block: it is as new and free, or recycled.
pub record SortedOut (block : ℕ) (b b' : Block) (holes : ℕ → Hole) : Type 0 where
  pub freed : Block.is_marked b ≡ false → SameButNext Block.init b'
  pub recycled : Block.is_marked b ≡ true → Recycled block b b' holes

-- Nothing else of the state changes but the two lists.
abbrev pub with_blocks :
    GlobalAllocator → Blocks → (ℕ → Hole) → BlockList → BlockList → GlobalAllocator
with_blocks s blocks holes free_list recyclable_list = record s {
  blocks = blocks;
  holes = holes;
  free_list = free_list;
  recyclable_list = recyclable_list;
}

abbrev pub pushed_on_free : GlobalAllocator → ℕ → GlobalAllocator
pushed_on_free s block =
    let r = BlockList.push (Block.write s.blocks block Block.init) s.free_list block in
    record s { blocks = r.0; free_list = r.1 }

abbrev pub kept_full : GlobalAllocator → ℕ → Block → (ℕ → Hole) → GlobalAllocator
kept_full s block b holes = record s {
  blocks = Block.write s.blocks block (Block.set_unavailable b);
  holes = holes;
}

abbrev pub pushed_on_recyclable : GlobalAllocator → ℕ → Block → ℕ → (ℕ → Hole) → GlobalAllocator
pushed_on_recyclable s block b i holes =
    let r =
      BlockList.push (Block.write s.blocks block (Block.set_recyclable b i)) s.recyclable_list
        block in
    record s { blocks = r.0; recyclable_list = r.1; holes = holes }

-- Where the block goes: on the free list, on none, or on the recyclable list.
pub data Placed (s : GlobalAllocator) (block : ℕ) (s' : GlobalAllocator) : Type 0 where
  on_free : s' ≡ pushed_on_free s block → Placed s block s'
  on_none : (b : Block) (holes : ℕ → Hole) → s' ≡ kept_full s block b holes → Placed s block s'
  on_recyclable :
      (b : Block) (i : ℕ) (holes : ℕ → Hole)
      → s' ≡ pushed_on_recyclable s block b i holes
      → Placed s block s'

pub record Step (s : GlobalAllocator) (block : ℕ) (s' : GlobalAllocator) : Type 0 where
  pub rest : s' ≡ with_blocks s s'.blocks s'.holes s'.free_list s'.recyclable_list
  pub done : SortedOut block (s.blocks block) (s'.blocks block) s'.holes
  pub others : (b : ℕ) → b ≢ block → SameButNext (s.blocks b) (s'.blocks b)
  pub holes : (a : ℕ) → a < block → a ≢ null → s'.holes a ≡ s.holes a
  pub placed : Placed s block s'

Flagged-next :
    (gaps : List Lines) (b : Block) (next : ℕ)
    → Flagged gaps b
    → Flagged gaps (record b { next = next })
Flagged-next [] b next flagged = flagged
Flagged-next (gap ∷ gaps) b next flagged = flagged

pub Recycled-next :
    (block : ℕ) (b x b' : Block) (holes : ℕ → Hole)
    → SameButNext x b'
    → Recycled block b x holes
    → Recycled block b b' holes
Recycled-next block b x b' holes (next, e) r =
    subst (λ y. Recycled block b y holes) (sym e)
      (record {
        gaps = r.gaps;
        sorted = r.sorted;
        exact = r.exact;
        linked = r.linked;
        flagged = Flagged-next r.gaps x next r.flagged;
        same_mark = r.same_mark;
        kept = r.kept;
        empty = r.empty;
      })
