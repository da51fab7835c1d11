-- ===== src/Collector/Marking/LargeSpace.antt =====
-- The large object space as a graph's objects: the chunks in use, of which a pointer into a chunk
-- points to that chunk's object, wherever in it it points; and the marking of one.
use gc.Base.{
  ℕ, ◌+◌, ◌≤◌, ◌<◌, ◌≡◌, ◌≢◌, refl, sym, ap, ◌∙◌, inl, inr, Bool, false, ◌&&◌, ltb, leb, ◌==◌, some,
  [], ◌∷◌, arith, length, Bool-cases, total, word_mod, add64, add64-add,
}
use gc.Object
use gc.Object.{Object, object_header}
use gc.Chunk.{null, chunk_header_size, sizeof_chunk}
use gc.ChunkList.Layout.{Cell, Cells, extent, head_at, last_from}
use gc.ChunkList.Find.{StandsAt, Owns, owner_unique}
use gc.LineHeader.{word_size}
use gc.Collector.{mark_object}
use gc.Collector.State.{Collector, scan_object}
use mathlib.Core.Option.{some-injective}
use gc.Collector.Marking.{Region, push_region, Visited, marks}
use gc.GlobalAllocator.{GlobalAllocator}
use gc.Collector.Marking.Large.{
  Shaped, marking_fields, marked_in, not_marked, region_of, region_in, marking, Shaped-marking,
  region_in-at, not_marked-marking, marked_in-marking, Shaped-at,
}

abbrev pub marking_heap : GlobalAllocator → ℕ → GlobalAllocator
marking_heap heap q = record heap {
  large_chunk_list = record (heap.large_chunk_list) {
    chunks = marking heap.large_chunk_list.chunks q;
  };
}

pub mark_object-heap :
    (c : Collector) (q : ℕ) → (mark_object c q).global_allocator ≡ marking_heap c.global_allocator q
unfolding mark_object scan_object
mark_object-heap c q =
    elim (Bool-cases
      ((marking c.global_allocator.large_chunk_list.chunks q q).object.atomic == 0)) [
        | inl pointers ↦ rw pointers refl
        | inr atomic ↦ rw atomic refl
      ]

mark_object-roots :
    (c : Collector) (q : ℕ) (d : Cell)
    → (c.global_allocator.large_chunk_list.chunks q).object.size ≡ d.object.size
    → (c.global_allocator.large_chunk_list.chunks q).object.atomic ≡ d.object.atomic
    → q + extent d + word_size ≤ word_mod
    → object_header ≤ d.object.size
    → (mark_object c q).roots ≡ push_region (region_of q d) c.roots
unfolding mark_object scan_object Object.mutator_address
mark_object-roots c q d size atomic fits room =
    let m = c.global_allocator.large_chunk_list.chunks in
    let same = marking_fields m q q in
    let top : add64 (add64 q chunk_header_size) object_header ≡ q + sizeof_chunk =
      rw (add64-add q chunk_header_size (omega arith))
        (add64-add (q + chunk_header_size) object_header (omega arith) ∙ omega arith) in
    let bottom : add64 (add64 q chunk_header_size) d.object.size ≡ q + extent d =
      rw (add64-add q chunk_header_size (omega arith))
        (add64-add (q + chunk_header_size) d.object.size (omega arith) ∙ omega arith) in
    rw (same.2 ∙ size, same.3 ∙ atomic, top, bottom)
      (elim (Bool-cases (d.object.atomic == 0)) [
        | inl pointers ↦ rw pointers refl
        | inr opaque ↦ rw opaque refl
      ])

region_of-fits :
    (p : ℕ) (c : Cell) (r : Region)
    → p + extent c + word_size ≤ word_mod
    → region_of p c ≡ some r
    → r.1 + word_size ≤ word_mod
region_of-fits p c r fits e = elim (Bool-cases (c.object.atomic == 0)) [
  | inl pointers ↦
      let here = some-injective _ _ (rw pointers at e) in
      let bottom : p + extent c ≡ r.1 = ap (λ x. x.1) here in omega arith
  | inr opaque ↦ let nowhere = rw opaque at e in cc
]

-- The large object space as it was laid out, where the small one lies, and fuel for its chunks. A
-- word's read at its end stays below the end of memory.
pub record Space (fuel : ℕ) : Type 0 where
  pub chunks : Cells
  pub start : ℕ
  pub stop : ℕ
  pub small_start : ℕ
  pub small_stop : ℕ
  pub positive : 0 < start
  pub bounded : stop + word_size ≤ word_mod
  pub span : start + total extent chunks ≡ stop
  pub enough : length chunks < fuel

module _ {fuel : ℕ} (space : Space fuel) where
  -- The heap has the chunks `space.chunks`, with any marks, and its spaces lie where they should.
  pub record IsLarge (heap : GlobalAllocator) : Type 0 where
    pub shaped : Shaped heap.large_chunk_list.chunks space.start space.chunks space.stop
    pub first : heap.large_chunk_list.first ≡ head_at space.chunks space.start
    pub last : heap.large_chunk_list.last ≡ last_from null space.chunks space.start
    pub size : heap.large_chunk_list.size ≡ length space.chunks
    pub large_start : heap.large_heap_start ≡ space.start
    pub large_stop : heap.large_heap_stop ≡ space.stop
    pub same_small_start : heap.small_heap_start ≡ space.small_start
    pub same_small_stop : heap.small_heap_stop ≡ space.small_stop

  -- The object of the chunk in use at `q` is what the pointer points into.
  abbrev pub PointsInto : ℕ → ℕ → Type 0
  PointsInto q pointer =
      (c : Cell) × StandsAt q c space.start space.chunks × (c.allocated ≢ 0) × Owns q c pointer

  abbrev pub is_marked : GlobalAllocator → ℕ → Bool
  is_marked heap q = marked_in heap.large_chunk_list.chunks q space.start space.chunks

  abbrev pub unmarked : GlobalAllocator → ℕ
  unmarked heap = not_marked heap.large_chunk_list.chunks space.start space.chunks

  -- The pointer does not lie in the small object space.
  abbrev pub OutsideSmall : ℕ → Type 0
  OutsideSmall pointer = (leb space.small_start pointer && ltb pointer space.small_stop) ≡ false

  pub region_in-fits :
      (q p : ℕ) (ds : Cells) (r : Region)
      → p + total extent ds ≤ space.stop
      → region_in q p ds ≡ some r
      → r.1 + word_size ≤ word_mod
  region_in-fits q p [] r fits e = cc
  region_in-fits q p (c ∷ ds) r fits e = elim (Bool-cases (p == q)) [
    | inl same ↦ region_of-fits p c r (omega arith) (rw same at e)
    | inr other ↦ region_in-fits q (p + extent c) ds r (omega arith) (rw other at e)
  ]

  -- A chunk in use that is not marked yet is marked, and its object put on the stack.
  pub mark_object-marks :
      (c : Collector) (q pointer : ℕ) (d : Cell)
      → IsLarge c.global_allocator
      → StandsAt q d space.start space.chunks
      → d.allocated ≢ 0
      → Owns q d pointer
      → Object.is_marked (c.global_allocator.large_chunk_list.chunks q).object ≡ false
      → Visited is_marked PointsInto
          (λ x. region_in x space.start space.chunks)
          unmarked
          IsLarge
          c
          pointer
          (mark_object c q)
  mark_object-marks c q pointer d w at used own un =
      let m = c.global_allocator.large_chunk_list.chunks in
      let (allocated, size, atomic, fits) =
        Shaped-at m q d space.start space.stop space.chunks at w.shaped in
      let heap = mark_object-heap c q in
      marks q (d, at, used, own) (λ r p. owner_unique p.1 at p.3 own)
        (rw heap (record {
          shaped = Shaped-marking m q space.start space.chunks space.stop w.shaped;
          first = w.first;
          last = w.last;
          size = w.size;
          large_start = w.large_start;
          large_stop = w.large_stop;
          same_small_start = w.same_small_start;
          same_small_stop = w.same_small_stop;
        }))
        (λ x. rw heap (marked_in-marking m q d x space.start space.chunks at))
        (rw heap (not_marked-marking m q d space.start space.chunks at un))
        (mark_object-roots c q d size atomic (omega arith) (omega arith)
          ∙ ap (λ x. push_region x c.roots) (sym (region_in-at q d space.start space.chunks at)))
