-- ===== src/Tests/SmallObjects.antt =====
-- A small space with one object, which a word of the stack points into, beside the three chunks.
use gc.Base.{
  differ, ℕ, ◌+◌, ◌^◌, ◌≤◌, ◌<◌, ◌≡◌, ◌↔◌, refl, sym, subst, ◌∙◌, inl, inr, true, false, arith,
  ◌==◌, ==_iff, if◌then◌else◌, Bool-cases, Returns, ok, [], word_mod,
}
use gc.Object
use gc.Object.{Object}
use gc.LineHeader.{contains_object}
use gc.Block.{Blocks, free}
use gc.Hash.{Hash, zeroed}
use gc.LineHeader.{word_size}
use gc.Collector.{Program, mark, collect}
use gc.Collector.Small.{unmark_small_objects}
use gc.Collector.State.{Collector}
use gc.Collector.Marking.{Region, In, Reach}
use gc.Collector.Marking.Small.{SmallSpace, IsSmall, Walk, starts_of, offsets_of, sizes_of, line_at}
use gc.Collector.Marking.Spaces.{inside, IsHeap, is_marked}
use gc.Collector.Marking.SmallSearch.{Walk-head}
use gc.Collector.Marking.SmallUnmark.{Unmarking, Walk-cases}
use gc.Collector.Marking.SmallBlank.{unmark_small_objects-Unmarking}
use gc.Collector.Marking.Both.{heap_graph, mark-IsHeap}
use gc.Collector.Marking.Reclaim.{IsCollectable, Collected}
use gc.Collector.Marking.Whole.{IsProgram, roots_of, collect-Collected}
use gc.Tests.Collection.{
  space, collector, stack_words, stack_regions, regions_fit, collector-IsSpace, blank_collector,
  blank, blank-IsLarge,
}

-- An object of 32 bytes at the start of the first line.
abbrev small_objects : ℕ → Object
small_objects q =
    if q == 0x200100
    then record { size = 32; marked = 0; atomic = 0 }
    else record { size = 0; marked = 0; atomic = 0 }

abbrev small_headers : ℕ → ℕ
small_headers i = if i == 0 then 2 else 0

abbrev small_blocks : Blocks
small_blocks b =
    if b == 0x200000
    then record {
      marked = 0;
      flag = free;
      first_free_line_index = 0;
      next = 0;
      line_headers = small_headers;
    }
    else record {
      marked = 0;
      flag = free;
      first_free_line_index = 0;
      next = 0;
      line_headers = λ i. 0;
    }

abbrev empty_table : Hash
empty_table = record { is_null = false; entries = zeroed; mask = 7; used = 0; deleted = 0 }

abbrev with_objects : Collector → Collector
with_objects c = record c {
  global_allocator = record (c.global_allocator) {
    blocks = small_blocks;
    objects = small_objects;
    finalizers = empty_table;
  };
}

empty_line : contains_object 0 ≡ false
unfolding contains_object
empty_line = refl

-- Only the first line of the first block has an object.
only_line : (b i : ℕ) → starts_of small_blocks b i ≡ true → (b ≡ 0x200000) × (i ≡ 0)
only_line b i has = elim (Bool-cases (b == 0x200000)) [
  | inr other ↦ absurd (differ (sym (rw other at has) ∙ empty_line))
  | inl first_block ↦ elim (Bool-cases (i == 0)) [
    | inl first_line ↦ ((==_iff b 0x200000).0 first_block, (==_iff i 0).0 first_line)
    | inr behind ↦ absurd (differ (sym (rw (first_block, behind) at has) ∙ empty_line))
  ]
]

only_object : (q : ℕ) → Walk (sizes_of small_objects) 0x200100 q 0 → q ≡ 0x200100
only_object q walk = elim (Walk-cases walk) [
  | inl e ↦ e
  | inr behind ↦ absurd (Walk-head behind refl)
]

small_size : (q : ℕ) → (q == 0x200100) ≡ true → (small_objects q).size ≡ 32
small_size q e = rw e refl

has_object : contains_object 2 ≡ true
unfolding contains_object
has_object = refl

offset_none : offsets_of small_blocks 0x200000 0 ≡ 0
offset_none = refl

abbrev small : SmallSpace space
small = record {
  blocks = small_blocks;
  objects = small_objects;
  is_object = λ q. q == 0x200100;
  finalizers = empty_table;
  aligned = refl;
  room = omega arith;
  apart = inr (omega arith);
  objects_lem = λ b i q al lo hi short has walk.
      let (eb, ei) = only_line b i has in
      let walk' =
        subst (λ x. Walk (sizes_of small_objects) (line_at x 0) q (offsets_of small_blocks x 0)) eb
          (subst (λ j. Walk (sizes_of small_objects) (line_at b j) q (offsets_of small_blocks b j))
            ei walk) in
      (==_iff q 0x200100).1 (only_object q walk');
  walked = λ q ob. (
    0x200000,
    0,
    refl,
    omega arith,
    omega arith,
    omega arith,
    has_object,
    subst (λ x. Walk (sizes_of small_objects) 0x200100 x 0) (sym ((==_iff q 0x200100).0 ob))
        (Walk.first (omega arith) refl (omega arith)),
  );
  limit = λ q ob. omega (arith, small_size q ob);
  ends = λ q ob. let e = (==_iff q 0x200100).0 ob in omega (arith, small_size q ob);
}

header_bytes : (b i : ℕ) → (small_blocks b).line_headers i < 256
header_bytes b i = elim (Bool-cases (b == 0x200000)) [
  | inr other ↦ rw other (omega arith)
  | inl first_block ↦ elim (Bool-cases (i == 0)) [
    | inl first_line ↦ rw (first_block, first_line) (omega arith)
    | inr behind ↦ rw (first_block, behind) (omega arith)
  ]
]

with_objects-IsSmall : (c : Collector) → IsSmall small (with_objects c).global_allocator
with_objects-IsSmall c = record {
  sizes = λ q. refl;
  atomics = λ q. refl;
  relined = λ b. record {
    flag = refl;
    first_free = refl;
    next = refl;
    same_starts = λ i. refl;
    same_offsets = λ i. refl;
    bytes = header_bytes b;
  };
}

collector-IsCollectable : IsCollectable small (with_objects collector).global_allocator
collector-IsCollectable = record {
  at = record {
    layout = collector-IsSpace.layout;
    large_start = refl;
    large_stop = refl;
    small_start = refl;
    small_stop = refl;
  };
  is_small = with_objects-IsSmall collector;
  same_finalizers = refl;
  order = omega arith;
  block_fuel = omega arith;
  line_fuel = omega arith;
  int_size = omega arith;
}

-- A program with a data segment and no collect callback.
abbrev program : Program
program = record {
  data_start = 0x1000;
  data_end = 0x1010;
  bss_start = 0x2000;
  bss_end = 0x2000;
  words = stack_words;
  hash = λ key. key;
  callback = λ f s. ok s;
  finalizer = λ f pointer s. s;
}

program-IsProgram : IsProgram program 0 []
program-IsProgram = record {
  data_order = omega arith;
  bss_order = omega arith;
  roots = λ s rs holds. (s, refl, (refl, holds));
  finalizer = λ f pointer s. refl;
}

roots_fit : (r : Region) → In r (roots_of program 0 [] stack_regions) → r.1 + word_size ≤ word_mod
roots_fit r (inl bss) = rw bss (omega arith)
roots_fit r (inr (inl data_segment)) = rw data_segment (omega arith)
roots_fit r (inr (inr stack_region)) = regions_fit r stack_region

collect-Collected_example : Returns (collect program (2 ^ 62) (with_objects collector)) λ c'.
    Collected small
      (Reach
        (heap_graph small collector-IsCollectable.line_fuel)
        stack_words
        (roots_of program 0 [] stack_regions))
      c'.global_allocator
collect-Collected_example =
    collect-Collected small program [] stack_regions (with_objects collector)
      collector-IsCollectable (omega arith) program-IsProgram
      (record { few = omega arith; small = omega arith }) roots_fit
      (record { even = refl; regions = refl }) (omega arith)

unmarked_small : (q : ℕ) → Object.is_marked (small_objects q) ≡ false
unfolding Object.is_marked
unmarked_small q = elim (Bool-cases (q == 0x200100)) [
  | inl object ↦ rw object refl
  | inr other ↦ rw other refl
]

blank-IsHeap : IsHeap small (with_objects blank_collector).global_allocator
blank-IsHeap = record {
  is_large = record {
    shaped = blank-IsLarge.shaped;
    first = refl;
    last = refl;
    size = refl;
    large_start = refl;
    large_stop = refl;
    same_small_start = refl;
    same_small_stop = refl;
  };
  is_small = with_objects-IsSmall blank_collector;
  same_finalizers = refl;
  shielded = λ q ob set. absurd (differ (sym set ∙ unmarked_small q));
}

blank_both : (q : ℕ) → is_marked small (with_objects blank_collector).global_allocator q ≡ false
blank_both q = elim (Bool-cases (inside space q)) [
  | inr out ↦ rw out (blank q)
  | inl within ↦ elim (Bool-cases (q == 0x200100)) [
    | inl object ↦ rw (within, object) (unmarked_one q object)
    | inr other ↦ rw (within, other) refl
  ]
]
  where
    unmarked_one :
        (q : ℕ) → (q == 0x200100) ≡ true → Object.is_marked (small_objects 0x200100) ≡ false
    unmarked_one q e = unmarked_small 0x200100

mark-IsHeap_example : Returns (mark stack_words (2 ^ 62) (with_objects blank_collector)) λ c'.
    IsHeap small c'.global_allocator
    × ((q : ℕ)
        → (is_marked small c'.global_allocator q ≡ true)
          ↔ Reach (heap_graph small collector-IsCollectable.line_fuel) stack_words stack_regions q)
mark-IsHeap_example =
    mark-IsHeap small stack_words stack_regions (with_objects blank_collector)
      collector-IsCollectable.line_fuel (omega arith) blank-IsHeap blank_both regions_fit
      (record { even = refl; regions = refl }) (omega arith)

unmark_small_objects-Unmarking_example :
    Returns (unmark_small_objects (2 ^ 62) (with_objects collector)) λ c'.
      (c' ≡ record (with_objects collector) { global_allocator = c'.global_allocator })
      × Unmarking small (with_objects collector).global_allocator c'.global_allocator
      × ((q : ℕ) → small.is_object q ≡ true → (c'.global_allocator.objects q).marked ≡ 0)
unmark_small_objects-Unmarking_example =
    unmark_small_objects-Unmarking small (with_objects collector) (with_objects-IsSmall collector)
      refl refl (omega arith) (omega arith) (omega arith)
