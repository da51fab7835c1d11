-- ===== src/Collector/Marking/SmallMark.antt =====
-- The marking of one object of the small space: its mark, its block's and its lines'.
use gc.Base.{
  ℕ, ◌+◌, ◌-◌, ◌≤◌, ◌<◌, ◌≡◌, ◌≢◌, refl, sym, ap, ◌∙◌, true, false, ◌||◌, leb, ◌==◌, arith,
  Bool-cases, inl, inr, ==_iff, ==_refl, subst, leb→le, word_mod, add64, add64-add, ok, Returns,
}
use gc.Object
use gc.Object.{Object, object_header}
use gc.LineHeader
use gc.LineHeader.{line_size}
use gc.Block
use gc.Block.{Block, Blocks, set_line_header}
use gc.GlobalAllocator.{GlobalAllocator}
use gc.Collector.State.{Collector, scan_object}
use gc.Collector.Small.{large_object_size, mark_lines, mark_small_object, write_object}
use gc.Collector.Marking.{marks, push_region}
use gc.Collector.Marking.LargeSpace.{Space}
use gc.Collector.Marking.Small.{
  SmallSpace, Relined-trans, line_at, Shielded, Shielded-Rising, block_of,
}
use gc.Collector.Marking.Spaces.{
  marked_object, not_marked_from-marked, inside, IsHeap, is_marked, object_region, Visits,
}
use gc.Collector.Marking.SmallShield.{
  line_rounds, Marked, Marked-one, Marked-many, Relined-mark, mark_lines-Lined,
}

ap-le : {a b k : ℕ} → a ≡ b → a ≤ k → b ≤ k
ap-le e h = omega arith

module _ {fuel : ℕ} {space : Space fuel} (small : SmallSpace space) where
  inside_bounds :
      (q : ℕ)
      → inside space q ≡ true
      → (space.small_start ≤ q) × (q < space.small_start + (space.small_stop - space.small_start))
  inside_bounds q h = ground arith

  -- The heap once the object at `q` is marked and its block is `b`.
  abbrev pub marked_heap : GlobalAllocator → ℕ → ℕ → Block → GlobalAllocator
  marked_heap heap block q b = record heap {
    objects = marked_object heap.objects q;
    blocks = Block.write heap.blocks block b;
  }

  marked_heap-IsHeap :
      (heap : GlobalAllocator) (block q : ℕ) (b : Block)
      → IsHeap small heap
      → block_of q ≡ block
      → Marked (heap.blocks block) block q ((small.objects q).size) b
      → IsHeap small (marked_heap heap block q b)
  unfolding Block.write Object.mark
  marked_heap-IsHeap heap block q b w home m =
      let w' = w.is_large in
      record {
        is_large = record {
          shaped = w'.shaped;
          first = w'.first;
          last = w'.last;
          size = w'.size;
          large_start = w'.large_start;
          large_stop = w'.large_stop;
          same_small_start = w'.same_small_start;
          same_small_stop = w'.same_small_stop;
        };
        is_small = record {
          sizes = λ r. elim (Bool-cases (r == q)) [
            | inl same ↦
                rw same
                  (ap (λ x. (heap.objects x).size) (sym ((==_iff r q).0 same)) ∙ w.is_small.sizes r)
            | inr other ↦ rw other (w.is_small.sizes r)
          ];
          atomics = λ r. elim (Bool-cases (r == q)) [
            | inl same ↦ rw same (
                ap (λ x. (heap.objects x).atomic) (sym ((==_iff r q).0 same))
                ∙ w.is_small.atomics r)
            | inr other ↦ rw other (w.is_small.atomics r)
          ];
          relined = λ r. elim (Bool-cases (r == block)) [
            | inl same ↦
                rw (same, (==_iff r block).0 same)
                  (Relined-trans (w.is_small.relined block) m.relined)
            | inr other ↦ rw other (w.is_small.relined r)
          ];
        };
        same_finalizers = w.same_finalizers;
        shielded = λ r ob set. elim (Bool-cases (r == q)) [
          | inl same ↦
              let e = (==_iff r q).0 same in
              subst
                (λ x.
                  Shielded (Block.write heap.blocks block b (block_of x)) (block_of x) x
                    ((small.objects x).size))
                (sym e)
                (subst
                  (λ y. Shielded (Block.write heap.blocks block b y) y q ((small.objects q).size))
                  (sym home) (rw (==_refl block) m.shielded))
          | inr other ↦
              let old = w.shielded r ob (rw other at set) in
              elim (Bool-cases (block_of r == block)) [
                | inl here ↦
                    let e = (==_iff (block_of r) block).0 here in
                    rw here (
                      Shielded-Rising (block_of r) r ((small.objects r).size) m.rising (
                        subst
                          (λ y. Shielded (heap.blocks y) (block_of r) r ((small.objects r).size)) e
                          old))
                | inr away ↦ rw away old
              ]
        ];
      }

  marked_heap-is_marked :
      (heap : GlobalAllocator) (block q : ℕ) (b : Block) (r : ℕ)
      → inside space q ≡ true
      → small.is_object q ≡ true
      → is_marked small (marked_heap heap block q b) r ≡ ((r == q) || is_marked small heap r)
  unfolding Object.is_marked Object.mark
  marked_heap-is_marked heap block q b r within ob = elim (Bool-cases (r == q)) [
    | inl same ↦ rw (same, (==_iff r q).0 same, within, ob) refl
    | inr other ↦ rw other refl
  ]

  mark_small_object-heap :
      (k : ℕ) (c : Collector) (block i q : ℕ)
      → line_rounds ≤ k
      → IsHeap small c.global_allocator
      → line_at block i ≤ q
      → q < line_at block i + line_size
      → (small.objects q).size ≤ large_object_size
      → (small.objects q).size ≢ 0
      → q + (small.objects q).size + line_size < word_mod
      → (b : Block) × Marked (c.global_allocator.blocks block) block q ((small.objects q).size) b
        × (mark_small_object k c block i (line_at block i) q
            ≡ ok (
                scan_object
                  (record c { global_allocator = marked_heap c.global_allocator block q b })
                  q
                  (Object.mark (c.global_allocator.objects q))))
  unfolding mark_small_object Object.mark write_object
  mark_small_object-heap k c block i q enough w lo hi limit some_size fits =
      let heap = c.global_allocator in
      let relined = w.is_small.relined block in
      let b = Block.mark (heap.blocks block) in
      let first = Relined-mark (heap.blocks block) relined.bytes in
      elim (Bool-cases (leb (heap.objects q).size line_size)) [
        | inl one ↦ (
          set_line_header b i (LineHeader.mark (b.line_headers i)),
          Marked-one (heap.blocks block) block i q ((small.objects q).size) relined.bytes lo hi
              (ap-le (w.is_small.sizes q) (leb→le _ _ one)),
          rw one refl,
        )
        | inr many ↦
            let (b', run, lines) =
              mark_lines-Lined k b i (line_at block i) (q + (small.objects q).size) first.bytes
                (omega arith) (omega arith) fits in
            let end : add64 q (heap.objects q).size ≡ q + (small.objects q).size =
              ap (add64 q) (w.is_small.sizes q)
              ∙ add64-add q (small.objects q).size (omega arith) in
            (
              b',
              Marked-many (heap.blocks block) b' block i q ((small.objects q).size) relined.bytes lo
                  lines,
              rw (many, ap (mark_lines k b i (line_at block i)) end ∙ run) refl,
            )
      ]

  scanned-heap :
      (c : Collector) (q : ℕ) (o : Object)
      → (scan_object c q o).global_allocator ≡ c.global_allocator
  unfolding scan_object
  scanned-heap c q o = elim (Bool-cases (o.atomic == 0)) [
    | inl pointers ↦ rw pointers refl
    | inr opaque ↦ rw opaque refl
  ]

  scanned-roots :
      (c : Collector) (q : ℕ) (o o' : Object)
      → o.size ≡ o'.size
      → o.atomic ≡ o'.atomic
      → object_header ≤ o'.size
      → q + o'.size < word_mod
      → (scan_object c q (Object.mark o)).roots ≡ push_region (object_region q o') c.roots
  unfolding scan_object Object.mutator_address Object.mark
  scanned-roots c q o o' size atomic room fits =
      let top : add64 q object_header ≡ q + object_header =
        add64-add q object_header (omega arith) in
      let bottom : add64 q o'.size ≡ q + o'.size = add64-add q o'.size fits in
      rw (size, atomic, top, bottom)
        (elim (Bool-cases (o'.atomic == 0)) [
          | inl pointers ↦ rw pointers refl
          | inr opaque ↦ rw opaque refl
        ])

  -- An object that is not marked yet is marked, whichever of its description makes it the one.
  pub mark_small_object-Visits :
      (P : ℕ → ℕ → Type 0) (k : ℕ) (c : Collector) (block i q pointer : ℕ)
      → line_rounds ≤ k
      → IsHeap small c.global_allocator
      → line_at block i ≤ q
      → q < line_at block i + line_size
      → block_of q ≡ block
      → (small.objects q).size ≤ large_object_size
      → object_header ≤ (small.objects q).size
      → q + (small.objects q).size + line_size < word_mod
      → inside space q ≡ true
      → small.is_object q ≡ true
      → Object.is_marked (c.global_allocator.objects q) ≡ false
      → P q pointer
      → ((r : ℕ) → P r pointer → r ≡ q)
      → Returns (mark_small_object k c block i (line_at block i) q) (Visits small P c pointer)
  mark_small_object-Visits P k c block i q pointer enough w lo hi home limit room fits within ob un
        at only =
      let heap = c.global_allocator in
      let (b, m, run) =
        mark_small_object-heap k c block i q enough w lo hi limit (omega arith) fits in
      let c' = record c { global_allocator = marked_heap heap block q b } in
      let object = Object.mark (heap.objects q) in
      let same = scanned-heap c' q object in
      (
        scan_object c' q object,
        run,
        marks q at only (rw same (marked_heap-IsHeap heap block q b w home m))
            (λ r. rw same (marked_heap-is_marked heap block q b r within ob))
            (rw same (
              omega (
                arith,
                not_marked_from-marked small.is_object heap.objects q space.small_start
                    (space.small_stop - space.small_start) ob un (inside_bounds q within).0
                    (inside_bounds q within).1,
              )))
            (scanned-roots c' q (heap.objects q) (small.objects q) (w.is_small.sizes q)
                (w.is_small.atomics q) room (omega arith)
              ∙ rw (within, ob) refl),
      )
