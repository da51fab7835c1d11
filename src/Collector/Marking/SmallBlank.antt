-- ===== src/Collector/Marking/SmallBlank.antt =====
-- The unmarking of the small object space, line by line and block by block, leaves no object marked.
use gc.Base.{
  ℕ, zero, suc, ◌+◌, ◌*◌, ◌%◌, ◌≤◌, ◌<◌, ◌≡◌, refl, sym, ap, ◌∙◌, true, false, ltb, ◌==◌, ==_iff,
  arith, Bool-cases, inl, inr, ltb→lt, word_mod, add64-add, ok, Returns, subst, ◌>>=◌,
}
use gc.LineHeader.{line_size}
use gc.Block
use gc.Block.{Block, block_size, line_count}
use gc.Block.Address.{IsBlock}
use gc.GlobalAllocator.{GlobalAllocator}
use gc.Collector.State.{Collector}
use gc.Collector.Small.{unmark_lines, unmark_blocks, unmark_small_objects}
use gc.Collector.Marking.LargeSpace.{Space}
use gc.Collector.Marking.Small.{SmallSpace, IsSmall, Relined}
use gc.Collector.Marking.SmallUnmark.{
  Unmarking, Unmarking-refl, Unmarking-trans, reblocked-Unmarking, ClearLine, ClearLine-stays,
  unmark_line-Unmarking,
}

Relined-unmark : (b : Block) → ((j : ℕ) → b.line_headers j < 256) → Relined b (Block.unmark b)
unfolding Block.unmark
Relined-unmark b bytes = record {
  flag = refl;
  first_free = refl;
  next = refl;
  same_starts = λ i. refl;
  same_offsets = λ i. refl;
  bytes = bytes;
}

module _ {fuel : ℕ} {space : Space fuel} (small : SmallSpace space) where
  unmark_lines-Unmarking :
      (rounds k : ℕ) (s : GlobalAllocator) (block i : ℕ)
      → IsSmall small s
      → IsBlock block
      → i + rounds ≤ line_count
      → line_size < k
      → Returns (unmark_lines rounds k s block i) λ s'.
        Unmarking small s s' × ((j : ℕ) → i ≤ j → j < i + rounds → ClearLine small s' block j)
  unfolding unmark_lines
  unmark_lines-Unmarking zero k s block i w valid short enough =
      (s, refl, (Unmarking-refl small s w, λ j lo hi. absurd (omega arith)))
  unmark_lines-Unmarking (suc rounds) k s block i w valid short enough =
      let (t, run, (first, clear)) =
        unmark_line-Unmarking small k s block i w valid (omega arith) enough in
      let (s', run', (rest, cleared)) =
        unmark_lines-Unmarking rounds k t block (i + 1) first.is_small valid (omega arith) enough in
      (
        s',
        rw run run',
        (
          Unmarking-trans small first rest,
          λ j lo hi. elim (Bool-cases (j == i)) [
            | inl same ↦
                subst (ClearLine small s' block) (sym ((==_iff j i).0 same))
                  (ClearLine-stays small block i rest clear)
            | inr other ↦ cleared j (ground arith) (omega arith)
          ],
        ),
      )

  -- Every object of the blocks from one on is unmarked.
  abbrev ClearFrom : GlobalAllocator → ℕ → Type 0
  ClearFrom s block =
      (b i : ℕ)
      → b % block_size ≡ 0
      → block ≤ b
      → b < space.small_stop
      → i < line_count
      → ClearLine small s b i

  unmark_blocks-past :
      (rounds k : ℕ) (s : GlobalAllocator) (block : ℕ)
      → ltb block s.small_heap_stop ≡ false
      → unmark_blocks (suc rounds) k s block ≡ ok s
  unfolding unmark_blocks
  unmark_blocks-past rounds k s block past = rw past refl

  unmark_blocks-step :
      (rounds k : ℕ) (s : GlobalAllocator) (block : ℕ)
      → ltb block s.small_heap_stop ≡ true
      → block + block_size < word_mod
      → unmark_blocks (suc rounds) k s block ≡ (
          unmark_lines line_count k
            (record s { blocks = Block.write s.blocks block (Block.unmark (s.blocks block)) })
            block
            0
          >>= λ t. unmark_blocks rounds k t (block + block_size))
  unfolding unmark_blocks
  unmark_blocks-step rounds k s block inside fits =
      rw (inside, add64-add block block_size fits) refl

  unmark_blocks-Unmarking :
      (rounds k : ℕ) (s : GlobalAllocator) (block : ℕ)
      → IsSmall small s
      → s.small_heap_stop ≡ space.small_stop
      → block % block_size ≡ 0
      → block < space.small_stop + block_size
      → space.small_stop + block_size ≤ block + block_size * rounds
      → line_size < k
      → Returns (unmark_blocks rounds k s block) λ s'. Unmarking small s s' × ClearFrom s' block
  unmark_blocks-Unmarking zero k s block w end aligned near work enough = absurd (omega arith)
  unmark_blocks-Unmarking (suc rounds) k s block w end aligned near work enough =
      elim (Bool-cases (ltb block space.small_stop)) [
        | inr past ↦ (
          s,
          unmark_blocks-past rounds k s block (ap (ltb block) end ∙ past),
          (Unmarking-refl small s w, λ b i al lo hi. absurd (ground arith)),
        )
        | inl inside ↦
            let lt = ltb→lt block space.small_stop inside in
            let valid : IsBlock block = record {
              aligned = aligned;
              inside = omega (arith, small.room);
            } in
            let first =
              reblocked-Unmarking small s block _ w
                (Relined-unmark (s.blocks block) (w.relined block).bytes) in
            let (t, run, (lines, clear)) =
              unmark_lines-Unmarking line_count k _ block 0 first.is_small valid (omega arith)
                enough in
            let end' = ap (λ x. x.small_heap_stop) lines.rest ∙ end in
            let (s', run', (rest, cleared)) =
              unmark_blocks-Unmarking rounds k t (block + block_size) lines.is_small end'
                (omega arith) (omega arith) (omega arith) enough in
            (
              s',
              unmark_blocks-step rounds k s block (ap (ltb block) end ∙ inside)
                    (omega (arith, small.room))
                  ∙ (rw run refl ∙ run'),
              (
                Unmarking-trans small first (Unmarking-trans small lines rest),
                λ b i al lo hi short. elim (Bool-cases (b == block)) [
                  | inl same ↦
                      subst (λ x. ClearLine small s' x i) (sym ((==_iff b block).0 same))
                        (ClearLine-stays small block i rest (clear i (omega arith) (omega arith)))
                  | inr other ↦
                      let ne : block < b = ground arith in cleared b i al (omega arith) hi short
                ],
              ),
            )
      ]

  -- On a `SmallSpace`, which is aligned and whose objects have at most 8192 bytes and end inside
  -- their blocks, the unmarking ends and fails no assertion. No object of the space is marked then,
  -- the block headers differ in marks at most, the objects keep their sizes and atomic flags, and
  -- nothing else of the state has changed. The fuel is more than the bytes of a line and enough for
  -- one step more than there are blocks.
  pub unmark_small_objects-Unmarking :
      (c : Collector)
      → IsSmall small c.global_allocator
      → c.global_allocator.small_heap_start ≡ space.small_start
      → c.global_allocator.small_heap_stop ≡ space.small_stop
      → space.small_start ≤ space.small_stop
      → space.small_stop + block_size ≤ space.small_start + block_size * fuel
      → line_size < fuel
      → Returns (unmark_small_objects fuel c) λ c'.
        (c' ≡ record c { global_allocator = c'.global_allocator })
        × Unmarking small c.global_allocator c'.global_allocator
        × ((q : ℕ) → small.is_object q ≡ true → (c'.global_allocator.objects q).marked ≡ 0)
  unfolding unmark_small_objects
  unmark_small_objects-Unmarking c w start end order work enough =
      let s = c.global_allocator in
      let (s', run, (u, cleared)) =
        unmark_blocks-Unmarking fuel fuel s space.small_start w end small.aligned (omega arith) work
          enough in
      (
        record c { global_allocator = s' },
        simp (start, run) refl,
        (
          refl,
          u,
          λ q ob.
              let (b, i, al, lo, hi, short, has, walk) = small.walked q ob in
              cleared b i al lo hi short q has walk,
        ),
      )
