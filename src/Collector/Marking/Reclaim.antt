-- ===== src/Collector/Marking/Reclaim.antt =====
-- The unmarking and the sweep of both object spaces, as the steps of `GC_Collector_collect`.
use gc.Base.{
  ℕ, ◌+◌, ◌*◌, ◌^◌, ◌%◌, ◌≤◌, ◌<◌, ◌≡◌, ◌⊎◌, ◌↔◌, refl, sym, ap, subst, ◌∙◌, inl, inr, true, false,
  Bool, ◌&&◌, ltb, if◌then◌else◌, Option, none, some, [], ◌∷◌, List, map, arith, Bool-cases,
  Returns, ◌>>=◌,
}
use gc.Object
use gc.Object.{Object, object_header}
use gc.Block
use gc.Block.{block_size, line_count}
use gc.ChunkList
use gc.ChunkList.{ChunkList}
use gc.ChunkList.Layout.{Cells, IsLayout}
use gc.ChunkList.Sweep.{last_extent}
use gc.LineHeader.{line_size}
use gc.GlobalAllocator.{GlobalAllocator}
use gc.GlobalAllocator.Recycle.Gaps.{Lines, InGaps, Linked, Sorted}
use gc.GlobalAllocator.Recycle.Blocks.{Flagged, Recycled}
use gc.GlobalAllocator.Recycle.Sorting.{recycle_blocks-Swept}
use gc.Collector.{unmark_large_objects, sweep}
use gc.Collector.State.{Collector}
use gc.Collector.Small.{unmark_small_objects}
use gc.Collector.Unmark.{unmarked, with_list, unmark_large_objects-map}
use gc.Collector.Marking.LargeSpace.{Space}
use gc.Collector.Marking.Collected.{IsSpace, unmarked-IsLarge, Tiles-blank}
use gc.Collector.Marking.Swept.{Reclaimed, sweep-Reclaimed}
use gc.Collector.Marking.Small.{SmallSpace, IsSmall, block_of, line_at}
use gc.Collector.Marking.Spaces.{inside, IsHeap, is_marked}
use gc.Collector.Marking.SmallShield.{line_rounds}
use gc.Collector.Marking.SmallUnmark.{with_small}
use gc.Collector.Marking.SmallBlank.{unmark_small_objects-Unmarking}
use gc.Collector.Marking.Both.{StandsAt-outside}

-- No line of the gaps meets the bytes of the object.
abbrev pub IsApart : ℕ → List Lines → ℕ → ℕ → Type 0
IsApart block gaps q size =
    (j : ℕ) → InGaps j gaps → (q + size ≤ line_at block j) ⊎ (line_at block j + line_size ≤ q)

-- `sizeof(Hole)`: two words.
abbrev hole_size : ℕ
hole_size = 16

-- A hole and an object's header share bytes.
abbrev pub overlaps : ℕ → ℕ → Bool
overlaps hole q = ltb q (hole + hole_size) && ltb hole (q + object_header)

-- The header at `q` as it is in the memory in which the holes of these gaps are written; there is none
-- if one of them is written over it.
abbrev pub header_at : ℕ → List Lines → (ℕ → Object) → ℕ → Option Object
header_at block [] objects q = some (objects q)
header_at block (gap ∷ gaps) objects q =
    if overlaps (line_at block gap.0) q then none else header_at block gaps objects q

header_at-some :
    (block i : ℕ) (gaps : List Lines) (objects : ℕ → Object) (q size : ℕ)
    → Sorted i gaps
    → object_header ≤ size
    → IsApart block gaps q size
    → header_at block gaps objects q ≡ some (objects q)
header_at-some block i [] objects q size sorted sized apart = refl
header_at-some block i (gap ∷ gaps) objects q size sorted sized apart =
    let rest =
      header_at-some block (gap.1 + 1) gaps objects q size sorted.3 sized
        (λ j there. apart j (inr there)) in
    elim (apart gap.0 (inl (omega arith, sorted.1))) [
      | inl behind ↦
          let clear : ltb (line_at block gap.0) (q + object_header) ≡ false = ground arith in
          elim (Bool-cases (ltb q (line_at block gap.0 + hole_size))) [
            | inl k ↦ rw (k, clear) rest
            | inr k ↦ rw k rest
          ]
      | inr before ↦
          let clear : ltb q (line_at block gap.0 + hole_size) ≡ false = ground arith in
          rw clear rest
    ]

-- The block of the object `o` at `q` is not free, no line of its gaps meets the bytes of the object,
-- and the holes written in the gaps leave the object's header, with its size and its atomic flag.
pub record Spared (heap : GlobalAllocator) (q : ℕ) (o : Object) : Type 0 where
  pub gaps : List Lines
  pub linked : Linked (block_of q) heap.holes gaps
  pub flagged : Flagged gaps (heap.blocks (block_of q))
  pub apart : IsApart (block_of q) gaps q o.size
  pub header : Object
  pub reads : header_at (block_of q) gaps heap.objects q ≡ some header
  pub same_size : header.size ≡ o.size
  pub same_atomic : header.atomic ≡ o.atomic

zero_not_marked : (o : Object) → o.marked ≡ 0 → Object.is_marked o ≡ false
unfolding Object.is_marked
zero_not_marked o e = rw e refl

module _ {fuel : ℕ} {space : Space fuel} (small : SmallSpace space) where
  -- Once both spaces are unmarked, the marking can start.
  unmarked-IsHeap :
      (c : Collector) (list : ChunkList)
      → IsSpace space c.global_allocator
      → IsSmall small c.global_allocator
      → c.global_allocator.finalizers ≡ small.finalizers
      → IsLayout list (map unmarked space.chunks) space.start space.stop
      → ((q : ℕ) → small.is_object q ≡ true → (c.global_allocator.objects q).marked ≡ 0)
      → IsHeap small (with_list c list).global_allocator
        × ((q : ℕ) → is_marked small (with_list c list).global_allocator q ≡ false)
  unmarked-IsHeap c list at w table layout clear = (
    record {
      is_large = unmarked-IsLarge space c list at layout;
      is_small = record { sizes = w.sizes; atomics = w.atomics; relined = w.relined };
      same_finalizers = table;
      shielded = λ q ob set. cc (zero_not_marked (c.global_allocator.objects q) (clear q ob));
    },
    λ q. elim (Bool-cases (inside space q)) [
      | inr out ↦
          rw out (Tiles-blank list.chunks space.start space.chunks space.stop q layout.tiles)
      | inl within ↦ elim (Bool-cases (small.is_object q)) [
        | inr none_there ↦ rw (within, none_there) refl
        | inl ob ↦ rw (within, ob) (zero_not_marked (c.global_allocator.objects q) (clear q ob))
      ]
    ],
  )

  object_block :
      (q : ℕ)
      → inside space q ≡ true
      → (block_of q % block_size ≡ 0)
        × (space.small_start ≤ block_of q)
        × (block_of q < space.small_stop)
  object_block q within =
      let bounds : (space.small_start ≤ q) × (q < space.small_stop) = ground arith in
      omega (arith, small.aligned)

  -- What a marked object's block becomes spares the object.
  object-Spared :
      (heap heap' : GlobalAllocator) (q : ℕ)
      → IsHeap small heap
      → small.is_object q ≡ true
      → Object.is_marked (heap.objects q) ≡ true
      → (Block.is_marked (heap.blocks (block_of q)) ≡ true
          → Recycled
              (block_of q)
              (heap.blocks (block_of q))
              (heap'.blocks (block_of q))
              heap'.holes)
      → heap'.objects ≡ heap.objects
      → object_header ≤ (small.objects q).size
      → Spared heap' q (small.objects q)
  object-Spared heap heap' q w ob set recycled same sized =
      let shield = w.shielded q ob set in
      let r = recycled shield.block_marked in
      let apart : IsApart (block_of q) r.gaps q ((small.objects q).size) = λ j inside_gap.
        let (pos, (short, e, e')) = (r.exact j).0 inside_gap in shield.lines j pos short e e' in
      record {
        gaps = r.gaps;
        linked = r.linked;
        flagged = r.flagged;
        apart = apart;
        header = heap'.objects q;
        reads =
            header_at-some (block_of q) 0 r.gaps heap'.objects q ((small.objects q).size) r.sorted
              sized apart;
        same_size = ap (λ o. (o q).size) same ∙ w.is_small.sizes q;
        same_atomic = ap (λ o. (o q).atomic) same ∙ w.is_small.atomics q;
      }

  -- The memory from which a collection starts, and fuel for its blocks.
  pub record IsCollectable (heap : GlobalAllocator) : Type 0 where
    pub at : IsSpace space heap
    pub is_small : IsSmall small heap
    pub same_finalizers : heap.finalizers ≡ small.finalizers
    pub order : space.small_start ≤ space.small_stop
    pub block_fuel : space.small_stop + block_size ≤ space.small_start + block_size * fuel
    pub line_fuel : line_size + line_rounds < fuel
    pub int_size : last_extent 0 space.chunks < 2 ^ 31

  with_small-IsSpace :
      (s s' : GlobalAllocator)
      → s' ≡ with_small s s'.blocks s'.objects
      → IsSpace space s
      → IsSpace space s'
  with_small-IsSpace s s' e at = subst (IsSpace space) (sym e) (record {
    layout = at.layout;
    large_start = at.large_start;
    large_stop = at.large_stop;
    small_start = at.small_start;
    small_stop = at.small_stop;
  })

  pub unmark-IsHeap :
      (c : Collector)
      → IsCollectable c.global_allocator
      → Returns (unmark_small_objects fuel c >>= λ a. unmark_large_objects fuel a) λ u.
        IsHeap small u.global_allocator
        × ((q : ℕ) → is_marked small u.global_allocator q ≡ false)
        × (u.roots ≡ c.roots)
        × (u.collect_callback ≡ c.collect_callback)
  unmark-IsHeap c w =
      let (a, run, (same, u, clear)) =
        unmark_small_objects-Unmarking small c w.is_small w.at.small_start w.at.small_stop w.order
          w.block_fuel (omega (arith, w.line_fuel)) in
      let at = with_small-IsSpace c.global_allocator a.global_allocator u.rest w.at in
      let (b, run', (layout, e)) =
        unmark_large_objects-map fuel a space.chunks space.start space.stop at.layout
          space.enough in
      let list = b.global_allocator.large_chunk_list in
      let (heap, blank) =
        unmarked-IsHeap a list at u.is_small (ap (λ x. x.finalizers) u.rest ∙ w.same_finalizers)
          layout clear in
      (
        b,
        rw run run',
        (
          subst (λ x. IsHeap small x.global_allocator) (sym e) heap,
          subst (λ x. (q : ℕ) → is_marked small x.global_allocator q ≡ false) (sym e) blank,
          ap (λ x. x.roots) e ∙ ap (λ x. x.roots) same,
          ap (λ x. x.collect_callback) e ∙ ap (λ x. x.collect_callback) same,
        ),
      )

  -- What a collection leaves: of the large space the live chunks, and the live small objects, which no
  -- free memory meets and no hole is written over.
  pub record Collected (IsLive : ℕ → Type 0) (heap : GlobalAllocator) : Type 0 where
    pub chunks : Cells
    pub layout : IsLayout heap.large_chunk_list chunks space.start space.stop
    pub reclaimed : Reclaimed IsLive space.start space.chunks chunks
    pub spared :
        (q : ℕ)
        → small.is_object q ≡ true
        → inside space q ≡ true
        → IsLive q
        → Spared heap q (small.objects q)

  pub sweep-Collected :
      (IsLive : ℕ → Type 0) (m : Collector)
      → last_extent 0 space.chunks < 2 ^ 31
      → space.small_start ≤ space.small_stop
      → space.small_stop + block_size ≤ space.small_start + block_size * fuel
      → IsHeap small m.global_allocator
      → ((q : ℕ) → (is_marked small m.global_allocator q ≡ true) ↔ IsLive q)
      → ((q : ℕ) → inside space q ≡ true → IsLive q → object_header ≤ (small.objects q).size)
      → Returns (sweep fuel m) λ c'. Collected IsLive c'.global_allocator
  unfolding sweep
  sweep-Collected IsLive m int_size order block_fuel w iff sized =
      let heap = m.global_allocator in
      let start = w.is_large.same_small_start in
      let stop = w.is_large.same_small_stop in
      let (swept, run, r) =
        recycle_blocks-Swept fuel heap (ap (λ x. x % block_size) start ∙ small.aligned)
          (omega (arith, start, stop)) (omega (arith, stop, small.room))
          (omega (arith, start, stop, block_fuel)) in
      let list : swept.large_chunk_list ≡ heap.large_chunk_list =
        ap (λ x. x.large_chunk_list) r.rest in
      let (list', run', (cs, layout, reclaimed)) =
        sweep-Reclaimed space IsLive heap int_size w.is_large (λ q d at.
          let outside = StandsAt-outside small heap q d w.is_large at in
          (λ set. (iff q).0 (rw outside set), λ live. rw outside at ((iff q).1 live))) in
      let objects : swept.objects ≡ heap.objects = ap (λ x. x.objects) r.rest in
      (
        record m { global_allocator = record swept { large_chunk_list = list' } },
        rw (run, ap (ChunkList.sweep fuel) list ∙ run') refl,
        record {
          chunks = cs;
          layout = layout;
          reclaimed = reclaimed;
          spared = λ q ob within live.
              let bounds = object_block q within in
              let set = rw (within, ob) at ((iff q).1 live) in
              let sorted =
                r.sorted_out (block_of q) bounds.0 (omega (arith, start, bounds.1))
                  (omega (arith, stop, bounds.2)) in
              object-Spared heap (record swept { large_chunk_list = list' }) q w ob set
                sorted.recycled objects (sized q within live);
        },
      )
