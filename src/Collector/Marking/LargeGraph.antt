-- ===== src/Collector/Marking/LargeGraph.antt =====
-- The graph of the large object space: a visit of a pointer marks the chunk in use that it points into.
use gc.Base.{
  differ, ℕ, ◌+◌, ◌≤◌, ◌≡◌, refl, sym, ap, ◌∙◌, inl, inr, true, false, ◌==◌, ==_iff, ==_lt, le→leb,
  lt→ltb, [], ◌∷◌, arith, length, Bool-cases, Returns,
}
use gc.Object
use gc.Object.{Object, object_header}
use gc.Chunk
use gc.Chunk.{null, Chunk, Chunks, write, write_self, write_ne, chunk_header_size, sizeof_chunk}
use gc.ChunkList
use gc.ChunkList.{ChunkList}
use gc.ChunkList.Layout.{Cell, Cells, extent}
use gc.ChunkList.Find.{StandsAt, StandsAt-le, Owns, Found, find_loop-Found, owner_unique}
use gc.Collector.{mark_chunk, visit}
use gc.Collector.State.{Collector}
use gc.Collector.Marking.{Visited, nothing}
use gc.GlobalAllocator.{GlobalAllocator, in_small_heap, in_large_heap}
use gc.Collector.Marking.Large.{
  now, head_at-now, length-now, StandsAt-now, now-StandsAt, not_marked, region_in, Shaped-Tiles,
  marked_in-at, Shaped-at,
}
use gc.Collector.Marking.LargeSpace.{
  Space, IsLarge, PointsInto, is_marked, unmarked, OutsideSmall, mark_object-marks,
}

mark_chunk-null : (c : Collector) → mark_chunk c 0 ≡ c
unfolding mark_chunk
mark_chunk-null c = refl

pub not_marked-le : (m : Chunks) (p : ℕ) (cs : Cells) → not_marked m p cs ≤ length cs
not_marked-le m p [] = omega arith
not_marked-le m p (c ∷ cs) = ground (arith, not_marked-le m (p + extent c) cs)

module _ {fuel : ℕ} (space : Space fuel) where
  abbrev pub VisitedBy : Collector → ℕ → Collector → Type 0
  VisitedBy =
      Visited (is_marked space) (PointsInto space) (λ x. region_in x space.start space.chunks)
        (unmarked space) (IsLarge space)

  in_small :
      (heap : GlobalAllocator) (pointer : ℕ)
      → IsLarge space heap
      → OutsideSmall space pointer
      → in_small_heap heap pointer ≡ false
  unfolding in_small_heap
  in_small heap pointer w outside = simp (w.same_small_start, w.same_small_stop) outside

  only_owner :
      {q pointer : ℕ} {d : Cell} (r : ℕ)
      → PointsInto space r pointer
      → StandsAt q d space.start space.chunks
      → Owns q d pointer
      → r ≡ q
  only_owner r (d', at', used, own') at own = owner_unique at' at own' own

  in_large :
      (heap : GlobalAllocator) (q pointer : ℕ)
      → IsLarge space heap
      → PointsInto space q pointer
      → in_large_heap heap pointer ≡ true
  unfolding in_large_heap
  in_large heap q pointer w (d, at, used, own) =
      let (allocated, size, atomic, fits) =
        Shaped-at heap.large_chunk_list.chunks q d space.start space.stop space.chunks at
          w.shaped in
      let le = StandsAt-le at in
      simp
        (
          w.large_start,
          w.large_stop,
          le→leb space.start pointer (omega arith),
          lt→ltb pointer space.stop (omega arith),
        )
        refl

  find-now :
      (heap : GlobalAllocator) (pointer : ℕ)
      → IsLarge space heap
      → Returns
          (ChunkList.find fuel heap.large_chunk_list pointer)
          (Found space.start (now heap.large_chunk_list.chunks space.start space.chunks) pointer)
  unfolding ChunkList.find
  find-now heap pointer w =
      let m = heap.large_chunk_list.chunks in
      let (q, run, found) =
        find_loop-Found fuel m space.start (now m space.start space.chunks) space.stop pointer
          space.positive (omega arith) (Shaped-Tiles m space.start space.chunks space.stop w.shaped)
          (rw (length-now m space.start space.chunks) space.enough) in
      (
        q,
        ap (λ x. ChunkList.find_loop fuel m x pointer)
              (w.first ∙ sym (head_at-now m space.chunks space.start space.start))
            ∙ run,
        found,
      )

  -- The chunk that owns the pointer is marked if it is in use and not marked yet.
  mark_chunk-VisitedBy :
      (c : Collector) (q pointer : ℕ) (d : Cell)
      → IsLarge space c.global_allocator
      → StandsAt q d space.start space.chunks
      → Owns q d pointer
      → VisitedBy c pointer (mark_chunk c q)
  unfolding mark_chunk Chunk.is_allocated
  mark_chunk-VisitedBy c q pointer d w at own =
      let m = c.global_allocator.large_chunk_list.chunks in
      let (allocated, size, atomic, fits) =
        Shaped-at m q d space.start space.stop space.chunks at w.shaped in
      let unused_same = λ (r : ℕ) (p : PointsInto space r pointer) (z : (m q).allocated ≡ 0).
        sym ((Shaped-at m r p.0 space.start space.stop space.chunks p.1 w.shaped).0)
        ∙ ap (λ x. (m x).allocated) (only_owner r p at own)
        ∙ z in
      let present = ==_lt q 0 (omega (arith, StandsAt-le at)) in
      let only = λ (r : ℕ) (p : PointsInto space r pointer). only_owner r p at own in
      elim (Bool-cases (d.allocated == 0)) [
        | inl unused ↦
            rw (present, allocated, unused)
              (nothing refl (λ r p.
                absurd (p.2 (unused_same r p (allocated ∙ (==_iff d.allocated 0).0 unused)))))
        | inr used ↦ elim (Bool-cases (Object.is_marked (m q).object)) [
          | inl done ↦
              rw (present, allocated, used, done)
                (nothing refl
                  (λ r p. rw (only r p) (marked_in-at m q d space.start space.chunks at ∙ done)))
          | inr todo ↦
              rw (present, allocated, used, todo)
                (mark_object-marks space c q pointer d w at (λ z. cc ((==_iff d.allocated 0).1 z))
                  own todo)
        ]
      ]

  pub visit-VisitedBy :
      (c : Collector) (pointer : ℕ)
      → OutsideSmall space pointer
      → IsLarge space c.global_allocator
      → Returns (visit fuel c pointer) (VisitedBy c pointer)
  unfolding visit
  visit-VisitedBy c pointer outside w =
      let heap = c.global_allocator in
      let m = heap.large_chunk_list.chunks in
      elim (Bool-cases (in_large_heap heap pointer)) [
        | inl inside ↦
            let (q, run, found) = find-now heap pointer w in
            (
              mark_chunk c q,
              rw (in_small heap pointer w outside, inside, run) refl,
              elim found [
                | inl (d', at', own') ↦
                    let (d, at, e, same) = now-StandsAt m q d' space.start space.chunks at' in
                    mark_chunk-VisitedBy c q pointer d w at (own'.0, omega (arith, own'.1, e))
                | inr (e, apart) ↦ nothing (ap (mark_chunk c) e ∙ mark_chunk-null c) (λ r p.
                    absurd (apart r _ (StandsAt-now m r p.0 space.start space.chunks p.1) p.3))
              ],
            )
        | inr out ↦ (
          c,
          rw (in_small heap pointer w outside, out) refl,
          nothing refl (λ q p. absurd (differ (sym (in_large heap q pointer w p) ∙ out))),
        )
      ]
