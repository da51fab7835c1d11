-- ===== src/Collector/Marking/Whole.antt =====
-- `GC_Collector_collect` as a whole: what it leaves of both object spaces.
use gc.Base.{
  differ, arith, bind_bind, bind_chain, ℕ, ◌+◌, ◌-◌, ◌/◌, ◌^◌, ◌≤◌, ◌<◌, ◌≡◌, ◌↔◌, refl, sym, ap,
  subst, ◌∙◌, inl, inr, true, ◌==◌, le→leb, List, [], ◌∷◌, ◌++◌, length, Bool-cases, word_mod, Run,
  Returns, if◌then◌else◌, ◌>>=◌,
}
use gc.Object
use gc.Object.{object_header}
use gc.Hash.{Hash}
use gc.Hash.Count.{stored_from}
use gc.Hash.Sweep.{delete_if-unchanged}
use gc.LineHeader.{word_size, line_size}
use gc.Stack
use gc.Stack.Regions.{HoldsRegions, push-HoldsRegions}
use gc.GlobalAllocator.{GlobalAllocator, reset_counters}
use gc.GlobalAllocator.Finalizers.{object_at, finalize_object_callback, finalize_objects}
use gc.Collector.{
  Program, collect, add_roots, call_collect_callback, mark, sweep, unmark_large_objects,
}
use gc.Collector.State.{Collector}
use gc.Collector.Small.{unmark_small_objects}
use gc.Collector.Marking.{Region, In, Reach, root, step}
use gc.Collector.Marking.LargeSpace.{Space, IsLarge}
use gc.Collector.Marking.Small.{SmallSpace}
use gc.Collector.Marking.Spaces.{inside, IsHeap, is_marked, Points}
use gc.Collector.Marking.SmallShield.{line_rounds}
use gc.Collector.Marking.Both.{heap_graph, mark-IsHeap, StandsAt-outside}
use gc.Collector.Marking.Reclaim.{IsCollectable, Collected, unmark-IsHeap, sweep-Collected}

-- What the program's functions do: a collect callback adds root regions and changes nothing else, and
-- a finalizer changes nothing of the heap.
pub record IsProgram (program : Program) (callback : ℕ) (extra : List Region) : Type 0 where
  pub data_order : program.data_start ≤ program.data_end
  pub bss_order : program.bss_start ≤ program.bss_end
  pub roots :
      (s : Collector) (rs : List Region)
      → HoldsRegions s.roots rs
      → Returns
          (program.callback callback s)
          λ s'. (s' ≡ record s { roots = s'.roots }) × HoldsRegions s'.roots (extra ++ rs)
  pub finalizer : (f pointer : ℕ) (s : GlobalAllocator) → program.finalizer f pointer s ≡ s

-- The table has room: its entries in use and its tombstones are less than a quarter of it.
pub record IsRoomy (t : Hash) : Type 0 where
  pub few : t.deleted + stored_from t.entries 0 (t.mask + 1) < (t.mask + 1) / 4
  pub small : t.mask < word_mod

-- The roots of a collection: those that wait already, the two data segments and the callback's.
abbrev pub roots_of : Program → ℕ → List Region → List Region → List Region
roots_of program callback extra before =
    (if callback == 0 then [] else extra)
    ++ (program.bss_start, program.bss_end) ∷ (program.data_start, program.data_end) ∷ before

abbrev finalized : GlobalAllocator → Hash → GlobalAllocator
finalized heap table = record heap { finalizers = table }

callback-quiet :
    (program : Program) (fuel : ℕ)
    → ((f pointer : ℕ) (s : GlobalAllocator) → program.finalizer f pointer s ≡ s)
    → (key value : ℕ) (s : GlobalAllocator)
    → (finalize_object_callback program.hash fuel program.finalizer key value s).0 ≡ s
unfolding finalize_object_callback
callback-quiet program fuel quiet key value s =
    elim (Bool-cases (Object.is_marked (object_at s key))) [
      | inl set ↦ rw set refl
      | inr clear ↦ rw clear (quiet value (Object.mutator_address key) s)
    ]

abbrev with_heap : Collector → GlobalAllocator → Collector
with_heap m heap = record m { global_allocator = heap }

finalize-quiet :
    (program : Program) (fuel : ℕ) (heap : GlobalAllocator)
    → ((f pointer : ℕ) (s : GlobalAllocator) → program.finalizer f pointer s ≡ s)
    → IsRoomy heap.finalizers
    → Returns
        (finalize_objects program.hash fuel program.finalizer heap)
        λ heap'. (t : Hash) × (heap' ≡ finalized heap t)
unfolding finalize_objects
finalize-quiet program fuel heap quiet room =
    let callback = λ (key value : ℕ) (s : GlobalAllocator).
      finalize_object_callback program.hash fuel program.finalizer key value s in
    let (r, run, same) =
      delete_if-unchanged callback program.hash fuel heap.finalizers heap
        (callback-quiet program fuel quiet) room.few room.small in
    (finalized r.0 r.1, rw run refl, (r.1, ap (λ x. finalized x r.1) same))

module _ {fuel : ℕ} {space : Space fuel} (small : SmallSpace space) (program : Program) where
  -- The steps of a collection behind the unmarking.
  abbrev tail : Collector → Run Collector
  tail unmarked = do
    with_data ← add_roots unmarked program.data_start program.data_end
    with_bss ← add_roots with_data program.bss_start program.bss_end
    rooted ← call_collect_callback program fuel with_bss
    marked ← mark program.words fuel rooted
    heap ←
        finalize_objects program.hash fuel program.finalizer
          (reset_counters marked.global_allocator)
    sweep fuel (record marked { global_allocator = heap })

  -- The steps behind the marking, and behind the roots.
  abbrev after_mark : Collector → Run Collector
  after_mark marked =
      finalize_objects program.hash fuel program.finalizer (reset_counters marked.global_allocator)
      >>= λ heap. sweep fuel (record marked { global_allocator = heap })

  abbrev after_roots : Collector → Run Collector
  after_roots s = mark program.words fuel s >>= after_mark

  collect-tail :
      (c : Collector)
      → collect program fuel c
        ≡ (unmark_small_objects fuel c >>= λ a. unmark_large_objects fuel a >>= tail)
  unfolding collect
  collect-tail c = refl

  called :
      (s : Collector) (extra rs : List Region)
      → IsProgram program s.collect_callback extra
      → HoldsRegions s.roots rs
      → Returns (call_collect_callback program fuel s) λ s'.
        (s' ≡ record s { roots = s'.roots })
        × HoldsRegions s'.roots ((if s.collect_callback == 0 then [] else extra) ++ rs)
  unfolding call_collect_callback
  called s extra rs p holds = elim (Bool-cases (s.collect_callback == 0)) [
    | inl no_callback ↦ (s, rw no_callback refl, (refl, rw no_callback holds))
    | inr some_callback ↦
        let (s', run, (same, holds')) = p.roots s rs holds in
        (s', rw some_callback run, (same, rw some_callback holds'))
  ]

  -- The roots are put on the stack, and nothing else changes.
  rooted :
      (c : Collector) (extra before : List Region)
      → IsProgram program c.collect_callback extra
      → HoldsRegions c.roots before
      → Returns
          (add_roots c program.data_start program.data_end >>= λ d.
            add_roots d program.bss_start program.bss_end >>= call_collect_callback program fuel)
          λ s.
            (s.global_allocator ≡ c.global_allocator)
            × HoldsRegions s.roots (roots_of program c.collect_callback extra before)
  unfolding add_roots
  rooted c extra before p holds =
      let with_data = push-HoldsRegions c.roots before program.data_start program.data_end holds in
      let roots = Stack.push c.roots program.data_start program.data_end in
      let with_bss = push-HoldsRegions roots _ program.bss_start program.bss_end with_data in
      let (s, run, (same, holds')) =
        called (record c { roots = Stack.push roots program.bss_start program.bss_end }) extra _ p
          with_bss in
      (
        s,
        rw
            (
              le→leb program.data_start program.data_end p.data_order,
              le→leb program.bss_start program.bss_end p.bss_order,
            )
            run,
        (ap (λ x. x.global_allocator) same, holds'),
      )

  -- A pointer into an object of the small space lies behind its header.
  Points-sized :
      (heap : GlobalAllocator) (q pointer : ℕ)
      → IsLarge space heap
      → inside space q ≡ true
      → Points small q pointer
      → object_header ≤ (small.objects q).size
  Points-sized heap q pointer large within points = elim points [
    | inl (_, found) ↦ omega (arith, found.covers)
    | inr (_, (d, at, used, own)) ↦
        absurd (differ (sym within ∙ StandsAt-outside small heap q d large at))
  ]

  -- So every object there that the roots reach has a header.
  Reach-sized :
      (words : ℕ → ℕ) (regions : List Region) (heap : GlobalAllocator)
      (enough : line_size + line_rounds < fuel)
      → IsLarge space heap
      → (q : ℕ) → inside space q ≡ true
      → Reach (heap_graph small enough) words regions q
      → object_header ≤ (small.objects q).size
  Reach-sized words regions heap enough large q within (root {a = a} r at on points) =
      Points-sized heap q (words a) large within points
  Reach-sized words regions heap enough large q within (step {a = a} r from here_region on points) =
      Points-sized heap q (words a) large within points

  -- Once the objects are marked, the finalizers change nothing that the sweep reads.
  finish-Collected :
      (IsLive : ℕ → Type 0) (before : GlobalAllocator) (m : Collector) (extra : List Region)
      (callback : ℕ)
      → IsProgram program callback extra
      → IsCollectable small before
      → IsRoomy small.finalizers
      → IsHeap small m.global_allocator
      → ((q : ℕ) → (is_marked small m.global_allocator q ≡ true) ↔ IsLive q)
      → ((q : ℕ) → inside space q ≡ true → IsLive q → object_header ≤ (small.objects q).size)
      → Returns
          (finalize_objects program.hash fuel program.finalizer (reset_counters m.global_allocator)
            >>= λ heap. sweep fuel (record m { global_allocator = heap }))
          λ c'. Collected small IsLive c'.global_allocator
  unfolding reset_counters
  finish-Collected IsLive before m extra callback p w room heap iff sized =
      let h0 = reset_counters m.global_allocator in
      let (h1, run, (table, same)) =
        finalize-quiet program fuel h0 p.finalizer
          (subst IsRoomy (sym heap.same_finalizers) room) in
      let small' : SmallSpace space = record small { finalizers = table } in
      let large = heap.is_large in
      let heap' : IsHeap small' (finalized h0 table) = record {
        is_large = record {
          shaped = large.shaped;
          first = large.first;
          last = large.last;
          size = large.size;
          large_start = large.large_start;
          large_stop = large.large_stop;
          same_small_start = large.same_small_start;
          same_small_stop = large.same_small_stop;
        };
        is_small = record {
          sizes = heap.is_small.sizes;
          atomics = heap.is_small.atomics;
          relined = heap.is_small.relined;
        };
        same_finalizers = refl;
        shielded = heap.shielded;
      } in
      let (c', run', r) =
        sweep-Collected small' IsLive (record m { global_allocator = finalized h0 table })
          w.int_size w.order w.block_fuel heap' iff sized in
      (
        c',
        rw run (ap (λ h. sweep fuel (with_heap m h)) same ∙ run'),
        record { chunks = r.chunks; layout = r.layout; reclaimed = r.reclaimed; spared = r.spared },
      )

  -- A collection ends and fails no assertion. It leaves a laid out large space with the same ends,
  -- in which every chunk that the roots reach stands where it stood, with its size and its flags,
  -- and every chunk in use is one that the roots reach. Every object of the small space that the
  -- roots reach stands in a block that is not free, lies apart from the lines of all holes that its
  -- block now links, and still has its header, with its size and its atomic flag, when the two
  -- words of each of these holes are written over the memory at its start. The roots are the
  -- regions that waited, the two data segments and the regions of the callback. The words of the
  -- roots, and of reached objects that are not atomic, reach the object that they point into: in
  -- the large space the chunk in use there, in the small space the object that covers the pointer
  -- in the line of the last first object in front of it. The heap is `IsCollectable`: the large
  -- space is laid out, the block headers and objects are those of a `SmallSpace`, which lies apart
  -- from the large one and whose objects have at most 8192 bytes and end inside their blocks, and
  -- an `int` has to hold the size of the last chunk. The callback adds regions and changes nothing
  -- else, a finalizer changes nothing of the heap, and the table of finalizers is less than a
  -- quarter full. The ends of the data segments are in order, and a root region ends a word or more
  -- below the end of memory; the fuel is more than 2 ^ 61, than the small space's addresses, the
  -- chunks and the roots together, and enough for the blocks.
  pub collect-Collected :
      (extra before : List Region) (c : Collector) (w : IsCollectable small c.global_allocator)
      → 2 ^ 61 < fuel
      → IsProgram program c.collect_callback extra
      → IsRoomy small.finalizers
      → ((r : Region)
          → In r (roots_of program c.collect_callback extra before)
          → r.1 + word_size ≤ word_mod)
      → HoldsRegions c.roots before
      → (space.small_stop - space.small_start)
          + length space.chunks
          + length (roots_of program c.collect_callback extra before)
        < fuel
      → Returns (collect program fuel c) λ c'.
        Collected small
          (Reach
            (heap_graph small w.line_fuel)
            program.words
            (roots_of program c.collect_callback extra before))
          c'.global_allocator
  collect-Collected extra before c w much p room fit holds work =
      let (u, run, (heap, blank, same, callback)) = unmark-IsHeap small c w in
      let p' = subst (λ f. IsProgram program f extra) (sym callback) p in
      let (s, run_roots, (same_heap, holds')) =
        rooted u extra before p' (subst (λ x. HoldsRegions x before) (sym same) holds) in
      let regions = roots_of program c.collect_callback extra before in
      let held =
        subst (λ f. HoldsRegions s.roots (roots_of program f extra before)) callback holds' in
      let (m, run_mark, (heap', iff)) =
        mark-IsHeap small program.words regions s w.line_fuel much
          (subst (IsHeap small) (sym same_heap) heap)
          (λ q. ap (λ h. is_marked small h q) same_heap ∙ blank q) fit held work in
      let (c', run_end, collected) =
        finish-Collected (Reach (heap_graph small w.line_fuel) program.words regions)
          c.global_allocator m extra c.collect_callback p w room heap' iff
          (Reach-sized program.words regions m.global_allocator w.line_fuel heap'.is_large) in
      (
        c',
        collect-tail c
            ∙ bind_bind (unmark_small_objects fuel c) (unmark_large_objects fuel) tail u run
            ∙ bind_chain (add_roots u program.data_start program.data_end)
                (λ d. add_roots d program.bss_start program.bss_end)
                (call_collect_callback program fuel) after_roots s run_roots
            ∙ ap (λ x. x >>= after_mark) run_mark
            ∙ run_end,
        collected,
      )
