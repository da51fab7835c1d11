-- ===== src/GlobalAllocator/Recycle/Sorting.antt =====
-- The loop of `GC_GlobalAllocator_recycleBlocks` over the blocks of the small space.
use gc.Base.{
  ℕ, zero, suc, ◌+◌, ◌*◌, ◌%◌, ◌≤◌, ◌<◌, ◌≡◌, ◌≢◌, refl, sym, ap, ◌∙◌, true, false, ltb, ◌==◌,
  ==_iff, arith, Bool-cases, inl, inr, ok, Returns, subst, ltb→lt, word_mod, add64-add, List, [],
  ◌∷◌,
}
use gc.Memory.{Hole}
use gc.Block
use gc.Block.{Block, block_size, line_count}
use gc.BlockList
use gc.GlobalAllocator.{GlobalAllocator}
use gc.GlobalAllocator.Recycle.{null, recycle_block, recycle_loop, recycle_blocks}
use gc.GlobalAllocator.Recycle.Gaps.{Lines, line_at, Sorted, Linked}
use gc.GlobalAllocator.Recycle.Lists.{Lists, Placed-Lists}
use gc.GlobalAllocator.Recycle.BlockSteps.{recycle_block-Step}
use gc.GlobalAllocator.Recycle.Blocks.{
  SameButNext, SameButNext-trans, Recycled-next, SortedOut, Step, with_blocks,
}

-- The holes of a block stay where nothing of the block is written.
Linked-frame :
    (block i : ℕ) (holes holes' : ℕ → Hole) (gaps : List Lines)
    → ((a : ℕ) → a < block + block_size → a ≢ null → holes' a ≡ holes a)
    → Sorted i gaps
    → Linked block holes gaps
    → Linked block holes' gaps
Linked-frame block i holes holes' [] same sorted linked = tt
Linked-frame block i holes holes' (gap ∷ gaps) same sorted (limit, next, rest) =
    let here = same (line_at block gap.0) (omega arith) (omega arith) in
    (
      ap (λ h. h.limit) here ∙ limit,
      ap (λ h. h.next) here ∙ next,
      Linked-frame block (gap.1 + 1) holes holes' gaps same sorted.3 rest,
    )

SortedOut-stays :
    (block : ℕ) (b x b' : Block) (holes holes' : ℕ → Hole)
    → SameButNext x b'
    → ((a : ℕ) → a < block + block_size → a ≢ null → holes' a ≡ holes a)
    → SortedOut block b x holes
    → SortedOut block b b' holes'
SortedOut-stays block b x b' holes holes' next same r = record {
  freed = λ e. SameButNext-trans Block.init x b' (r.freed e) next;
  recycled = λ e.
      let q = Recycled-next block b x b' holes next (r.recycled e) in
      record {
        gaps = q.gaps;
        sorted = q.sorted;
        exact = q.exact;
        linked = Linked-frame block 0 holes holes' q.gaps same q.sorted q.linked;
        flagged = q.flagged;
        same_mark = q.same_mark;
        kept = q.kept;
        empty = q.empty;
      };
}

relinked : Block → ℕ → Block
relinked b next = record b { next = next }

SortedOut-relinked :
    (block : ℕ) (b b' : Block) (next : ℕ) (holes : ℕ → Hole)
    → SortedOut block (relinked b next) b' holes
    → SortedOut block b b' holes
unfolding relinked Block.is_marked
SortedOut-relinked block b b' next holes r = record {
  freed = r.freed;
  recycled = λ e.
      let q = r.recycled e in
      record {
        gaps = q.gaps;
        sorted = q.sorted;
        exact = q.exact;
        linked = q.linked;
        flagged = q.flagged;
        same_mark = q.same_mark;
        kept = q.kept;
        empty = q.empty;
      };
}

-- The lists hold the free and the recyclable blocks up to the first block address at or behind `stop`.
pub record Listed (s : GlobalAllocator) (start stop : ℕ) : Type 0 where
  pub last : ℕ
  pub reached : (stop ≤ last) × (last < stop + block_size)
  pub frees : List ℕ
  pub recyclables : List ℕ
  pub lists : Lists s start last frees recyclables

-- What stood in front of the block's address is only linked anew.
pub record Swept (s : GlobalAllocator) (block stop : ℕ) (s' : GlobalAllocator) : Type 0 where
  pub rest : s' ≡ with_blocks s s'.blocks s'.holes s'.free_list s'.recyclable_list
  pub sorted_out :
      (b : ℕ)
      → b % block_size ≡ 0
      → block ≤ b
      → b < stop
      → SortedOut b (s.blocks b) (s'.blocks b) s'.holes
  pub others : (b : ℕ) → b < block → SameButNext (s.blocks b) (s'.blocks b)
  pub holes : (a : ℕ) → a < block → a ≢ null → s'.holes a ≡ s.holes a
  pub listed :
      (start : ℕ) (frees recyclables : List ℕ)
      → 0 < start
      → start ≤ block
      → Lists s start block frees recyclables
      → Listed s' start stop

Swept-Step :
    (s t s' : GlobalAllocator) (block stop : ℕ)
    → block % block_size ≡ 0
    → block + block_size < word_mod
    → Step s block t
    → Swept t (block + block_size) stop s'
    → Swept s block stop s'
unfolding relinked
Swept-Step s t s' block stop aligned fits first r = record {
  rest =
      r.rest
      ∙ ap (λ x. with_blocks x s'.blocks s'.holes s'.free_list s'.recyclable_list) first.rest;
  sorted_out = λ b al lo hi. elim (Bool-cases (b == block)) [
    | inl same ↦
        subst (λ x. SortedOut x (s.blocks x) (s'.blocks x) s'.holes) (sym ((==_iff b block).0 same))
          (SortedOut-stays block (s.blocks block) (t.blocks block) (s'.blocks block) t.holes
            s'.holes (r.others block (omega arith)) r.holes first.done)
    | inr other ↦
        let behind : block + block_size ≤ b = ground arith in
        let ne : b ≢ block = λ e. absurd (omega arith) in
        let (next, e) = first.others b ne in
        SortedOut-relinked b (s.blocks b) (s'.blocks b) next s'.holes
          (subst (λ x. SortedOut b x (s'.blocks b) s'.holes) e (r.sorted_out b al behind hi))
  ];
  others = λ b lt.
      SameButNext-trans (s.blocks b) (t.blocks b) (s'.blocks b)
        (first.others b (λ e. absurd (omega arith))) (r.others b (omega arith));
  holes = λ a lt nz. r.holes a (omega arith) nz ∙ first.holes a lt nz;
  listed = λ start frees recyclables pos le lists.
      let (frees', recyclables', lists') =
        Placed-Lists s t start block frees recyclables aligned le pos fits first.placed lists in
      r.listed start frees' recyclables' pos (omega arith) lists';
}

recycle_loop-step :
    (rounds : ℕ) (s t : GlobalAllocator) (block : ℕ)
    → ltb block s.small_heap_stop ≡ true
    → block + block_size < word_mod
    → recycle_block s block ≡ ok t
    → recycle_loop (suc rounds) s block ≡ recycle_loop rounds t (block + block_size)
unfolding recycle_loop
recycle_loop-step rounds s t block inside fits run =
    rw (inside, run, add64-add block block_size fits) refl

recycle_loop-past :
    (rounds : ℕ) (s : GlobalAllocator) (block : ℕ)
    → ltb block s.small_heap_stop ≡ false
    → recycle_loop (suc rounds) s block ≡ ok s
unfolding recycle_loop
recycle_loop-past rounds s block past = rw past refl

recycle_loop-Swept :
    (rounds : ℕ) (s : GlobalAllocator) (block stop : ℕ)
    → s.small_heap_stop ≡ stop
    → block % block_size ≡ 0
    → stop + 2 * block_size ≤ word_mod
    → block < stop + block_size
    → stop + block_size ≤ block + block_size * rounds
    → Returns (recycle_loop rounds s block) (Swept s block stop)
recycle_loop-Swept zero s block stop e aligned room near work = absurd (omega arith)
recycle_loop-Swept (suc rounds) s block stop e aligned room near work =
    elim (Bool-cases (ltb block stop)) [
      | inr past ↦ (
        s,
        recycle_loop-past rounds s block (ap (ltb block) e ∙ past),
        record {
          rest = refl;
          sorted_out = λ b al lo hi. absurd (ground arith);
          others = λ b lt. ((s.blocks b).next, refl);
          holes = λ a lt nz. refl;
          listed = λ start frees recyclables pos le lists. record {
            last = block;
            reached = (ground arith, near);
            frees = frees;
            recyclables = recyclables;
            lists = lists;
          };
        },
      )
      | inl inside ↦
          let lt = ltb→lt block stop inside in
          let (t, run, first) =
            recycle_block-Step s block (record { aligned = aligned; inside = omega arith }) in
          let (s', run', r) =
            recycle_loop-Swept rounds t (block + block_size) stop
              (ap (λ x. x.small_heap_stop) first.rest ∙ e) (omega arith) room (omega arith)
              (omega arith) in
          (
            s',
            recycle_loop-step rounds s t block (ap (ltb block) e ∙ inside) (omega arith) run ∙ run',
            Swept-Step s t s' block stop aligned (omega arith) first r,
          )
    ]

abbrev pub emptied : GlobalAllocator → GlobalAllocator
emptied s = record s {
  free_list = BlockList.clear s.free_list;
  recyclable_list = BlockList.clear s.recyclable_list;
}

pub recycle_blocks-Swept :
    (fuel : ℕ) (s : GlobalAllocator)
    → s.small_heap_start % block_size ≡ 0
    → s.small_heap_start ≤ s.small_heap_stop
    → s.small_heap_stop + 2 * block_size ≤ word_mod
    → s.small_heap_stop + block_size ≤ s.small_heap_start + block_size * fuel
    → Returns (recycle_blocks fuel s) (Swept (emptied s) s.small_heap_start s.small_heap_stop)
unfolding recycle_blocks
recycle_blocks-Swept fuel s aligned order room work =
    recycle_loop-Swept fuel (emptied s) s.small_heap_start s.small_heap_stop refl aligned room
      (omega arith) work

emptied-Lists : (s : GlobalAllocator) (start : ℕ) → Lists (emptied s) start start [] []
unfolding BlockList.clear
emptied-Lists s start = record {
  free_queue = record {
    holds = record { chain = refl; last = refl; size = refl };
    members = λ b. (λ z. absurd z, λ h. absurd (omega arith));
    room = omega arith;
    ascending = tt;
  };
  recyclable_queue = record {
    holds = record { chain = refl; last = refl; size = refl };
    members = λ b. (λ z. absurd z, λ h. absurd (omega arith));
    room = omega arith;
    ascending = tt;
  };
}

-- The recycling of an aligned small space, that does not start at NULL, ends, with fuel for one
-- step more than there are blocks, and fails no assertion. A block that is not marked is as new,
-- and free. A marked one keeps its mark and the headers of its marked lines, its other lines are
-- empty, and its holes, linked in order, are exactly the lines, but the first, that are not marked
-- and that stand behind a line that is not marked; it is recyclable, with the first of these lines,
-- if there is any, and unavailable if not. The free list holds exactly the free blocks of the space
-- and the recyclable list exactly the recyclable ones, up to the first block address at or behind
-- the space's stop, both in address order. Blocks in front of the space change at most in their
-- links, and nothing else of the state changes but the holes, which the model keeps apart from the
-- headers of the objects that the code writes them over. The space ends two blocks or more below
-- the end of memory.
pub recycle_blocks-Listed :
    (fuel : ℕ) (s : GlobalAllocator)
    → 0 < s.small_heap_start
    → s.small_heap_start % block_size ≡ 0
    → s.small_heap_start ≤ s.small_heap_stop
    → s.small_heap_stop + 2 * block_size ≤ word_mod
    → s.small_heap_stop + block_size ≤ s.small_heap_start + block_size * fuel
    → Returns (recycle_blocks fuel s) λ s'.
      Swept (emptied s) s.small_heap_start s.small_heap_stop s'
      × Listed s' s.small_heap_start s.small_heap_stop
recycle_blocks-Listed fuel s pos aligned order room work =
    let (s', run, r) = recycle_blocks-Swept fuel s aligned order room work in
    (
      s',
      run,
      (r, r.listed s.small_heap_start [] [] pos (omega arith) (emptied-Lists s s.small_heap_start)),
    )
