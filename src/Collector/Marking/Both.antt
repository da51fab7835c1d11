-- ===== src/Collector/Marking/Both.antt =====
-- The graph of both object spaces, and the marking of all objects that can be reached.
use gc.Base.{
  differ, ℕ, ◌+◌, ◌-◌, ◌^◌, ◌≤◌, ◌<◌, ◌≡◌, ◌↔◌, refl, sym, ap, ◌∙◌, true, false, not, ◌&&◌, ◌==◌,
  arith, Bool-cases, inl, inr, ==_iff, word_mod, Run, ok, aborted, out_of_fuel, ◌>>=◌, Returns,
  subst, some, List, length,
}
use mathlib.Core.Option.{some-injective}
use gc.Object
use gc.Object.{object_header}
use gc.Chunk
use gc.ChunkList
use gc.ChunkList.Layout.{Cell}
use gc.ChunkList.Find.{StandsAt, StandsAt-le}
use gc.LineHeader.{word_size, line_size}
use gc.Stack.Regions.{HoldsRegions}
use gc.GlobalAllocator.{GlobalAllocator, in_small_heap, in_large_heap}
use gc.Collector.{mark, mark_chunk, visit}
use gc.Collector.State.{Collector}
use gc.Collector.Marking.{Region, nothing, marks, Graph, In, Reach}
use gc.Collector.Marking.Correct.{mark-Reach}
use gc.Collector.Marking.Large.{Shaped-at}
use gc.Collector.Marking.LargeSpace.{Space, IsLarge, PointsInto, region_in-fits, mark_object-heap}
use gc.Collector.Marking.LargeGraph.{visit-VisitedBy, VisitedBy, not_marked-le}
use gc.Collector.Marking.Small.{SmallSpace, block_of, Shielded}
use gc.Collector.Marking.Spaces.{
  inside, IsHeap, is_marked, unmarked, region, Points, Visits, not_marked_from-le,
}
use gc.Collector.Marking.SmallShield.{line_rounds}
use gc.Collector.Marking.SmallSearch.{Visits-map}
use gc.Collector.Marking.SmallLines.{find_and_mark-Visits}

-- The small space and the table of finalizers are as they were.
abbrev SameSmall : Collector → Collector → Type 0
SameSmall c c' =
    (c'.global_allocator.objects ≡ c.global_allocator.objects)
    × (c'.global_allocator.blocks ≡ c.global_allocator.blocks)
    × (c'.global_allocator.finalizers ≡ c.global_allocator.finalizers)

mark_chunk-SameSmall : (c : Collector) (chunk : ℕ) → SameSmall c (mark_chunk c chunk)
unfolding mark_chunk
mark_chunk-SameSmall c chunk =
    let same = mark_object-heap c chunk in
    let x = c.global_allocator.large_chunk_list.chunks chunk in
    elim (Bool-cases (not (chunk == 0) && Chunk.is_allocated x)) [
      | inl present ↦ elim (Bool-cases (Object.is_marked x.object)) [
        | inl done ↦ rw (present, done) (refl, refl, refl)
        | inr todo ↦
            rw (present, todo)
              (ap (λ h. h.objects) same, ap (λ h. h.blocks) same, ap (λ h. h.finalizers) same)
      ]
      | inr absent ↦ rw absent (refl, refl, refl)
    ]

found-SameSmall :
    (c c' : Collector) (found : Run ℕ)
    → (found >>= λ chunk. ok (mark_chunk c chunk)) ≡ ok c'
    → SameSmall c c'
found-SameSmall c c' aborted e = cc
found-SameSmall c c' out_of_fuel e = cc
found-SameSmall c c' (ok chunk) e =
    let same : mark_chunk c chunk ≡ c' = cc in
    subst (SameSmall c) same (mark_chunk-SameSmall c chunk)

visit-SameSmall :
    (fuel : ℕ) (c c' : Collector) (pointer : ℕ)
    → in_small_heap c.global_allocator pointer ≡ false
    → visit fuel c pointer ≡ ok c'
    → SameSmall c c'
unfolding visit
visit-SameSmall fuel c c' pointer out run =
    let list = c.global_allocator.large_chunk_list in
    elim (Bool-cases (in_large_heap c.global_allocator pointer)) [
      | inl large ↦ found-SameSmall c c' (ChunkList.find fuel list pointer) (rw (out, large) at run)
      | inr nowhere ↦
          let same : c ≡ c' = let e = rw (out, nowhere) at run in cc in
          subst (SameSmall c) same (refl, refl, refl)
    ]

module _ {fuel : ℕ} {space : Space fuel} (small : SmallSpace space) where
  in_small_lem :
      (heap : GlobalAllocator) (pointer : ℕ)
      → IsLarge space heap
      → in_small_heap heap pointer ≡ inside space pointer
  unfolding in_small_heap
  in_small_lem heap pointer w = simp (w.same_small_start, w.same_small_stop) refl

  -- A chunk lies outside the small space.
  pub StandsAt-outside :
      (heap : GlobalAllocator) (q : ℕ) (d : Cell)
      → IsLarge space heap
      → StandsAt q d space.start space.chunks
      → inside space q ≡ false
  StandsAt-outside heap q d w at =
      let (allocated, size, atomic, fits) =
        Shaped-at heap.large_chunk_list.chunks q d space.start space.stop space.chunks at
          w.shaped in
      let le = StandsAt-le at in
      elim small.apart [ inl below ↦ ground arith | inr above ↦ ground arith ]

  chunk_outside :
      (heap : GlobalAllocator) (q pointer : ℕ)
      → IsLarge space heap
      → PointsInto space q pointer
      → inside space q ≡ false
  chunk_outside heap q pointer w (d, at, used, own) = StandsAt-outside heap q d w at

  large-Visits :
      (c c' : Collector) (pointer : ℕ)
      → inside space pointer ≡ false
      → IsHeap small c.global_allocator
      → SameSmall c c'
      → VisitedBy space c pointer c'
      → Visits small (Points small) c pointer c'
  large-Visits c c' pointer out w same (nothing e done) = nothing e (λ r at. elim at [
    | inl (within, p) ↦ absurd (differ (sym within ∙ out))
    | inr (out', p) ↦ rw (chunk_outside c.global_allocator r pointer w.is_large p) (done r p)
  ])
  large-Visits c c' pointer out w same (marks q at only heap marked count roots) =
      let outside = chunk_outside c.global_allocator q pointer w.is_large at in
      marks q (inr (out, at))
        (λ r at'. elim at' [
          | inl (within, p) ↦ absurd (differ (sym within ∙ out))
          | inr (out', p) ↦ only r p
        ])
        (record {
          is_large = heap;
          is_small = record {
            sizes = λ r. ap (λ o. (o r).size) same.0 ∙ w.is_small.sizes r;
            atomics = λ r. ap (λ o. (o r).atomic) same.0 ∙ w.is_small.atomics r;
            relined = λ b. rw same.1 (w.is_small.relined b);
          };
          same_finalizers = same.2 ∙ w.same_finalizers;
          shielded = λ r ob set.
              subst (λ bs. Shielded (bs (block_of r)) (block_of r) r ((small.objects r).size))
                (sym same.1)
                (w.shielded r ob (ap (λ o. Object.is_marked (o r)) (sym same.0) ∙ set));
        })
        (λ r. elim (Bool-cases (inside space r)) [
          | inl within ↦ elim (Bool-cases (r == q)) [
            | inl e ↦ absurd (differ (sym within ∙ ap (inside space) ((==_iff r q).0 e) ∙ outside))
            | inr other ↦ rw (within, other, same.0) refl
          ]
          | inr away ↦ rw away (marked r)
        ])
        (rw same.0 (omega (arith, count))) (roots ∙ rw outside refl)

  small-visit :
      (c : Collector) (pointer : ℕ)
      → line_size + line_rounds < fuel
      → inside space pointer ≡ true
      → IsHeap small c.global_allocator
      → Returns (visit fuel c pointer) (Visits small (Points small) c pointer)
  unfolding visit
  small-visit c pointer enough within w =
      let (c', run, visited) = find_and_mark-Visits small fuel enough c w pointer within in
      (
        c',
        rw (in_small_lem c.global_allocator pointer w.is_large, within) run,
        Visits-map small pointer (λ r p. inl (within, p))
            (λ r at. elim at [
              | inl (within', p) ↦ p
              | inr (out, p) ↦ absurd (differ (sym within ∙ out))
            ])
            visited,
      )

  pub visit-Visits :
      (c : Collector) (pointer : ℕ)
      → line_size + line_rounds < fuel
      → IsHeap small c.global_allocator
      → Returns (visit fuel c pointer) (Visits small (Points small) c pointer)
  visit-Visits c pointer enough w = elim (Bool-cases (inside space pointer)) [
    | inl within ↦ small-visit c pointer enough within w
    | inr out ↦
        let (c', run, visited) = visit-VisitedBy space c pointer out w.is_large in
        let outside = in_small_lem c.global_allocator pointer w.is_large ∙ out in
        (
          c',
          run,
          large-Visits c c' pointer out w (visit-SameSmall fuel c c' pointer outside run) visited,
        )
  ]

  pub region-fits : (q : ℕ) (r : Region) → region small q ≡ some r → r.1 + word_size ≤ word_mod
  region-fits q r e = elim (Bool-cases (inside space q)) [
    | inr out ↦
        region_in-fits space q space.start space.chunks r (omega (arith, space.span)) (rw out at e)
    | inl within ↦ elim (Bool-cases (small.is_object q)) [
      | inr not_one ↦ let e' = rw (within, not_one) at e in cc
      | inl ob ↦ elim (Bool-cases ((small.objects q).atomic == 0)) [
        | inr opaque ↦ let e' = rw (within, ob, opaque) at e in cc
        | inl pointers ↦
            let here = some-injective _ _ (rw (within, ob, pointers) at e) in
            let bottom : q + (small.objects q).size ≡ r.1 = ap (λ x. x.1) here in
            let bounds : q < space.small_stop = ground arith in
            omega (arith, small.ends q ob, small.room)
      ]
    ]
  ]

  abbrev pub heap_graph : line_size + line_rounds < fuel → Graph fuel
  heap_graph enough = record {
    IsOk = IsHeap small;
    is_marked = is_marked small;
    Points = Points small;
    region = region small;
    unmarked = unmarked small;
    InScope = λ pointer. Unit {0};
    region_fits = region-fits;
    visit_lem = λ c pointer scope w. visit-Visits c pointer enough w;
  }

  -- From a heap of both spaces in which no object is marked, the marking ends and fails no
  -- assertion, and an object is marked then if and only if the words of the roots, and of reached
  -- objects that are not atomic, reach it. Only marks have changed in both spaces; a marked small
  -- object has its block marked, and lies apart from every line that is free for the recycling. The
  -- small space's objects have at most 8192 bytes and end inside their blocks. A root region ends a
  -- word or more below the end of memory; the fuel is more than 2 ^ 61 and than the small space's
  -- addresses, the chunks and the roots together.
  pub mark-IsHeap :
      (words : ℕ → ℕ) (roots : List Region) (c : Collector)
      (enough : line_size + line_rounds < fuel)
      → 2 ^ 61 < fuel
      → IsHeap small c.global_allocator
      → ((q : ℕ) → is_marked small c.global_allocator q ≡ false)
      → ((r : Region) → In r roots → r.1 + word_size ≤ word_mod)
      → HoldsRegions c.roots roots
      → (space.small_stop - space.small_start) + length space.chunks + length roots < fuel
      → Returns (mark words fuel c) λ c'.
        IsHeap small c'.global_allocator
        × ((q : ℕ)
            → (is_marked small c'.global_allocator q ≡ true)
              ↔ Reach (heap_graph enough) words roots q)
  mark-IsHeap words roots c enough much w blank fit holds work =
      mark-Reach (heap_graph enough) words roots c much (λ a. tt) w blank fit holds
        (omega (
          arith,
          not_marked-le c.global_allocator.large_chunk_list.chunks space.start space.chunks,
          not_marked_from-le small.is_object c.global_allocator.objects space.small_start
              (space.small_stop - space.small_start),
        ))
