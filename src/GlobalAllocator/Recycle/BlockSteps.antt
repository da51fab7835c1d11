-- ===== src/GlobalAllocator/Recycle/BlockSteps.antt =====
-- `GC_GlobalAllocator_recycleBlocks`, block by block: a block that is not marked becomes free, and a
-- marked one gets its holes.
use gc.Base.{
  differ, ne_test, bind_after, ℕ, ◌+◌, ◌≡◌, refl, sym, ap, ◌∙◌, true, false, ==_refl, arith,
  Bool-cases, Option-cases, inl, inr, Returns, subst, none, some, List, [], ◌∷◌,
}
use mathlib.Core.Option.{some-injective}
use gc.Block
use gc.Block.{Block, Blocks, BlockFlag, free, recyclable, unavailable, block_size, line_count}
use gc.Block.Address.{IsBlock}
use gc.BlockList
use gc.BlockList.{BlockList}
use gc.GlobalAllocator.{GlobalAllocator}
use gc.GlobalAllocator.Recycle.{Scan, null, scan_lines, close_last, recycle_scanned, recycle_block}
use gc.GlobalAllocator.Recycle.Gaps.{Lines, first_line}
use gc.GlobalAllocator.Recycle.Scanned.{Closed}
use gc.GlobalAllocator.Recycle.Swept.{scan_lem}
use gc.GlobalAllocator.Recycle.Blocks.{
  push-SameButNext, Flagged, marks_of, Recycled, Step, Recycled-next, on_free, on_none,
  on_recyclable,
}

free_block-Step :
    (s : GlobalAllocator) (block : ℕ)
    → Block.is_marked (s.blocks block) ≡ false
    → Returns (recycle_block s block) (Step s block)
unfolding recycle_block Block.set_free Block.write
free_block-Step s block unmarked =
    let m = Block.write s.blocks block Block.init in
    let r = BlockList.push m s.free_list block in
    let pushed = push-SameButNext m s.free_list block in
    (
      record s { blocks = r.0; free_list = r.1 },
      rw unmarked refl,
      record {
        rest = refl;
        done = record {
          freed = λ e. rw (==_refl block) at (pushed block);
          recycled = λ e. absurd (differ (sym e ∙ unmarked));
        };
        others = λ b ne. rw (ne_test b block ne) at (pushed b);
        holes = λ a lt ne. refl;
        placed = on_free refl;
      },
    )

Flagged-none :
    (gaps : List Lines) (b : Block)
    → none ≡ first_line none gaps
    → Flagged gaps (Block.set_unavailable b)
unfolding Block.set_unavailable
Flagged-none [] b e = refl
Flagged-none (gap ∷ gaps) b e = cc

Flagged-some :
    (gaps : List Lines) (b : Block) (i : ℕ)
    → some i ≡ first_line none gaps
    → Flagged gaps (Block.set_recyclable b i)
unfolding Block.set_recyclable
Flagged-some [] b i e = cc
Flagged-some (gap ∷ gaps) b i e = (refl, some-injective _ _ e)

unavailable_same :
    (b : Block)
    → ((Block.set_unavailable b).marked ≡ b.marked)
      × ((Block.set_unavailable b).line_headers ≡ b.line_headers)
unfolding Block.set_unavailable
unavailable_same b = (refl, refl)

recyclable_same :
    (b : Block) (i : ℕ)
    → ((Block.set_recyclable b i).marked ≡ b.marked)
      × ((Block.set_recyclable b i).line_headers ≡ b.line_headers)
unfolding Block.set_recyclable
recyclable_same b i = (refl, refl)

abbrev scan_start : GlobalAllocator → ℕ → Scan
scan_start s block = record {
  self = s.blocks block;
  holes = s.holes;
  first_free_line_index = none;
  hole = null;
  previous_hole = null;
}

module _ (s : GlobalAllocator) (block : ℕ) (valid : IsBlock block) (t : Scan)
    (r : Closed block valid (marks_of (s.blocks block)) (scan_start s block) 0 t) where
  -- The block as the scan leaves it, with its flag.
  scanned-Recycled :
      (b' : Block)
      → b'.marked ≡ t.self.marked
      → b'.line_headers ≡ t.self.line_headers
      → Flagged r.gaps b'
      → Recycled block (s.blocks block) b' t.holes
  scanned-Recycled b' mark headers flagged = record {
    gaps = r.gaps;
    sorted = r.sorted;
    exact = r.exact;
    linked = r.linked;
    flagged = flagged;
    same_mark = mark ∙ ap (λ b. b.marked) r.lines.rest;
    kept = λ j e. ap (λ h. h j) headers ∙ r.lines.kept j e;
    empty = λ j lt e. ap (λ h. h j) headers ∙ r.lines.empty j (omega arith) lt e;
  }

  abbrev full_state : GlobalAllocator
  full_state = record s {
    blocks = Block.write s.blocks block (Block.set_unavailable t.self);
    holes = t.holes;
  }

  full-eq : t.first_free_line_index ≡ none → recycle_scanned s block t ≡ full_state
  unfolding recycle_scanned
  full-eq e = rw e refl

  full-Step :
      Block.is_marked (s.blocks block) ≡ true
      → t.first_free_line_index ≡ none
      → Step s block full_state
  unfolding Block.write
  full-Step marked full = record {
    rest = refl;
    done = record {
      freed = λ e. absurd (differ (sym marked ∙ e));
      recycled = λ e. rw (==_refl block) (
          scanned-Recycled (Block.set_unavailable t.self) (unavailable_same t.self).0
            (unavailable_same t.self).1 (Flagged-none r.gaps t.self (sym full ∙ r.first)));
    };
    others = λ b ne. rw (ne_test b block ne) ((s.blocks b).next, refl);
    holes = λ a lt nz. r.frame a (omega arith) nz;
    placed = on_none t.self t.holes refl;
  }

  abbrev pushed_state : ℕ → GlobalAllocator
  pushed_state i =
      let p =
        BlockList.push (Block.write s.blocks block (Block.set_recyclable t.self i))
          s.recyclable_list block in
      record s { blocks = p.0; recyclable_list = p.1; holes = t.holes }

  pushed-eq :
      (i : ℕ) → t.first_free_line_index ≡ some i → recycle_scanned s block t ≡ pushed_state i
  unfolding recycle_scanned
  pushed-eq i e = rw e refl

  pushed-Step :
      (i : ℕ)
      → Block.is_marked (s.blocks block) ≡ true
      → t.first_free_line_index ≡ some i
      → Step s block (pushed_state i)
  unfolding Block.write
  pushed-Step i marked found =
      let m = Block.write s.blocks block (Block.set_recyclable t.self i) in
      let pushed = push-SameButNext m s.recyclable_list block in
      record {
        rest = refl;
        done = record {
          freed = λ e. absurd (differ (sym marked ∙ e));
          recycled = λ e.
              Recycled-next block (s.blocks block) (Block.set_recyclable t.self i) _ t.holes
                (rw (==_refl block) at (pushed block))
                (scanned-Recycled (Block.set_recyclable t.self i) (recyclable_same t.self i).0
                  (recyclable_same t.self i).1
                  (Flagged-some r.gaps t.self i (sym found ∙ r.first)));
        };
        others = λ b ne. rw (ne_test b block ne) at (pushed b);
        holes = λ a lt nz. r.frame a (omega arith) nz;
        placed = on_recyclable t.self i t.holes refl;
      }

  recycle_scanned-Step :
      Block.is_marked (s.blocks block) ≡ true → Step s block (recycle_scanned s block t)
  recycle_scanned-Step marked = elim (Option-cases t.first_free_line_index) [
    | inl full ↦ subst (Step s block) (sym (full-eq full)) (full-Step marked full)
    | inr (i, found) ↦ subst (Step s block) (sym (pushed-eq i found)) (pushed-Step i marked found)
  ]

pub recycle_block-Step :
    (s : GlobalAllocator) (block : ℕ)
    → IsBlock block
    → Returns (recycle_block s block) (Step s block)
unfolding recycle_block
recycle_block-Step s block valid = elim (Bool-cases (Block.is_marked (s.blocks block))) [
  | inr unmarked ↦ free_block-Step s block unmarked
  | inl marked ↦
      let (t, run, r) =
        (scan_lem block valid (marks_of (s.blocks block)) (line_count + 1)).0 (scan_start s block) 0
          (omega arith) (omega arith) (λ j. refl) refl (omega arith) in
      (
        recycle_scanned s block t,
        rw marked (
            bind_after (scan_lines (line_count + 1) block (scan_start s block) 0) (close_last block)
              (recycle_scanned s block) t run),
        recycle_scanned-Step s block valid t r marked,
      )
]
