-- ===== src/Tests/Collection.antt =====
-- Marking and collection of the three chunks, from one word that points into the first.
use gc.Base.{
  ℕ, ◌+◌, ◌^◌, ◌≤◌, ◌≡◌, refl, inl, inr, false, List, [], ◌∷◌, map, arith, total, Bool-cases, ◌==◌,
  if◌then◌else◌, ok, Returns, word_mod,
}
use gc.LineHeader.{word_size}
use gc.Object
use gc.Chunk
use gc.ChunkList.Layout.{IsLayout}
use gc.Stack.{Stack}
use gc.Tests.Chunks.{base, end, three, heap, heap-IsLayout}
use gc.Tests.Allocator.{state}
use gc.Collector.{unmark_large_objects}
use gc.Collector.State.{Collector}
use gc.Collector.Unmark.{unmarked, with_list, unmark_large_objects-map}
use gc.Collector.Marking.{Region, In}
use gc.Collector.Marking.LargeSpace.{Space, IsLarge, is_marked}
use gc.Collector.Marking.Collected.{IsSpace}
use gc.Immix.Stats.{large_heap_stats}
use gc.Immix.Usage.{live, live_bytes, large_heap_stats-total}

abbrev pub stack : Stack
stack = record { buffer = λ k. if k == 0 then 0x7f000 else 0x7f010; cursor = 2 }

abbrev pub stack_regions : List Region
stack_regions = (0x7f000, 0x7f010) ∷ []

abbrev pub collector : Collector
collector = record {
  global_allocator = state;
  collect_callback = 0;
  roots = stack;
  is_collecting = 1;
}

-- The words of the stack point into the first chunk, and into an object of the small space.
abbrev pub stack_words : ℕ → ℕ
stack_words a = if a == 0x7f000 then base + 40 else if a == 0x7f008 then 0x200110 else 0

abbrev pub space : Space (2 ^ 62)
space = record {
  chunks = three;
  start = base;
  stop = end;
  small_start = 0x200000;
  small_stop = 0x210000;
  positive = omega arith;
  bounded = omega arith;
  span = refl;
  enough = omega arith;
}

pub regions_fit : (r : Region) → In r stack_regions → r.1 + word_size ≤ word_mod
regions_fit r (inl e) = rw e (omega arith)
regions_fit r (inr out) = absurd out

pub collector-IsSpace : IsSpace space collector.global_allocator
collector-IsSpace = record {
  layout = heap-IsLayout;
  large_start = refl;
  large_stop = refl;
  small_start = refl;
  small_stop = refl;
}

unmark_large_objects-map_example : Returns (unmark_large_objects 4 collector) λ c'.
    IsLayout c'.global_allocator.large_chunk_list (map unmarked three) base end
    × (c' ≡ with_list collector c'.global_allocator.large_chunk_list)
unmark_large_objects-map_example =
    unmark_large_objects-map 4 collector three base end heap-IsLayout (omega arith)

large_heap_stats-total_example :
    large_heap_stats 4 state
    ≡ ok (record { count = total live three; bytes = total live_bytes three })
large_heap_stats-total_example =
    large_heap_stats-total 4 state three base end heap-IsLayout (omega arith)

abbrev pub blank_collector : Collector
blank_collector = with_list collector (record heap { chunks = λ p. Chunk.unmark (heap.chunks p) })

pub blank : (q : ℕ) → is_marked space blank_collector.global_allocator q ≡ false
unfolding Chunk.unmark Object.is_marked
blank q = elim (Bool-cases (base == q)) [
  | inl first ↦ rw first refl
  | inr past ↦ elim (Bool-cases (base + 64 == q)) [
    | inl second ↦ rw (past, second) refl
    | inr behind ↦ elim (Bool-cases (base + 192 == q)) [
      | inl third ↦ rw (past, behind, third) refl
      | inr last ↦ rw (past, behind, last) refl
    ]
  ]
]

pub blank-IsLarge : IsLarge space blank_collector.global_allocator
unfolding Chunk.unmark
blank-IsLarge = record {
  shaped = (
    refl,
    refl,
    refl,
    refl,
    omega arith,
    (refl, refl, refl, refl, omega arith, (refl, refl, refl, refl, omega arith, refl)),
  );
  first = refl;
  last = refl;
  size = refl;
  large_start = refl;
  large_stop = refl;
  same_small_start = refl;
  same_small_stop = refl;
}
