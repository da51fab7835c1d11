-- ===== src/GlobalAllocator/Init/Ready.antt =====
-- The invariants that `GC_GlobalAllocator_init` sets up.
use gc.Base.{
  ℕ, zero, suc, ◌+◌, ◌-◌, ◌*◌, ◌/◌, ◌%◌, ◌^◌, ◌≤◌, ◌<◌, ◌≡◌, ◌∙◌, refl, sym, subst, [], ◌∷◌, arith,
  word_mod, lt→ltb, le→leb, le→ltb, add64, add64-add, sub64, sub64-sub, ok, Returns,
}
use gc.Chunk.{chunk_header_size}
use gc.ChunkList
use gc.ChunkList.Layout.{IsLayout}
use gc.ChunkList.Push.{push-IsLayout}
use gc.ChunkList.Split.{free_cell}
use gc.Block.{block_size}
use gc.BlockList
use gc.Hash
use gc.GlobalAllocator.{GlobalAllocator, map_and_align, push_blocks}
use gc.GlobalAllocator.Large.{HasLayout}
use gc.GlobalAllocator.Grow.{IsMapped}
use gc.GlobalAllocator.NextBlock.Pushed.{
  addresses, HasBlocks, Pushed, pushed_one, push_blocks-zero, push_blocks-suc, push_blocks-Pushed,
}
use gc.GlobalAllocator.NextBlock.Grow.{length-addresses}
use gc.GlobalAllocator.Init.{init_blocks, init_small, init_large, init}

-- The loop does what the growth of the space does with the number of blocks.
init_blocks-push_blocks :
    (fuel n : ℕ) (s : GlobalAllocator) (cursor : ℕ)
    → cursor + n * block_size ≡ s.small_heap_stop
    → s.small_heap_stop < word_mod
    → n < fuel
    → init_blocks fuel s cursor ≡ ok (push_blocks n s cursor)
unfolding init_blocks pushed_one
init_blocks-push_blocks zero n s cursor e bound h = absurd (omega arith)
init_blocks-push_blocks (suc fuel) zero s cursor e bound h =
    rw (le→ltb s.small_heap_stop cursor (omega arith), push_blocks-zero s cursor) refl
init_blocks-push_blocks (suc fuel) (suc n) s cursor e bound h =
    let next : cursor + block_size + n * block_size ≡ s.small_heap_stop = omega arith in
    rw
      (
        lt→ltb cursor s.small_heap_stop (omega arith),
        add64-add cursor block_size (omega arith),
        push_blocks-suc n s cursor (omega arith),
      )
      (init_blocks-push_blocks fuel n (pushed_one s cursor) (cursor + block_size) next bound
        (omega arith))

-- The limit leaves room for both spaces at an address.
pub record Fits (memory_limit start initial_size : ℕ) : Type 0 where
  pub positive : 0 < start
  pub mapped : start + memory_limit < word_mod
  pub limited : memory_limit < 2 ^ 46
  pub within : initial_size + initial_size ≤ memory_limit
  pub large : block_size * 2 ≤ initial_size

init_large-HasLayout :
    (s : GlobalAllocator) (memory_limit start initial_size : ℕ)
    → Fits memory_limit start initial_size
    → HasLayout
        (init_large s start initial_size)
        (free_cell (initial_size - chunk_header_size) ∷ [])
unfolding init_large ChunkList.clear
init_large-HasLayout s memory_limit start initial_size f =
    let e : sub64 initial_size chunk_header_size ≡ initial_size - chunk_header_size =
      sub64-sub initial_size chunk_header_size (omega (arith, f.large))
        (omega (arith, f.limited, f.within)) in
    let stop : add64 start initial_size
        ≡ start + (chunk_header_size + (initial_size - chunk_header_size)) =
      add64-add start initial_size (omega (arith, f.mapped, f.within)) ∙ omega (arith, f.large) in
    let empty : IsLayout (ChunkList.clear s.large_chunk_list) [] start start = record {
      positive = f.positive;
      bounded = omega (arith, f.mapped);
      tiles = refl;
      first = refl;
      last = refl;
      size = refl;
    } in
    rw (e, stop)
      (record {
        layout =
            push-IsLayout (initial_size - chunk_header_size) empty (omega (arith, f.large))
              (omega (arith, f.large, f.mapped, f.within));
        extends = omega (arith, f.large);
      })

-- The state of `init` in front of the loop.
abbrev with_small : GlobalAllocator → ℕ → ℕ → GlobalAllocator
with_small self start initial_size = record self {
  small_heap_size = initial_size;
  small_heap_start = start;
  small_heap_stop = start + initial_size;
  free_list = record { first = 0; last = 0; size = 0 };
  recyclable_list = record { first = 0; last = 0; size = 0 };
}

init_small-Pushed :
    (fuel : ℕ) (self : GlobalAllocator) (memory_limit start initial_size : ℕ)
    → Fits memory_limit start initial_size
    → initial_size % block_size ≡ 0
    → initial_size / block_size < fuel
    → Returns (init_small fuel self start initial_size) (
        Pushed start
          (start + initial_size / block_size * block_size)
          (with_small self start initial_size)
          (addresses (initial_size / block_size) start))
unfolding init_small BlockList.clear
init_small-Pushed fuel self memory_limit start initial_size f whole h =
    let n = initial_size / block_size in
    let stop : add64 start initial_size ≡ start + initial_size =
      add64-add start initial_size (omega (arith, f.mapped, f.within)) in
    let s = with_small self start initial_size in
    (
      push_blocks n s start,
      rw stop (
          init_blocks-push_blocks fuel n s start (omega arith) (omega (arith, f.mapped, f.within))
            h),
      push_blocks-Pushed n start s start [] (record { chain = refl; last = refl; size = refl }) tt
          (omega arith) f.positive (omega (arith, f.mapped, f.within))
          (omega (arith, f.limited, f.within)),
    )

-- What `init` sets up: the invariants of both spaces.
pub record Ready (s : GlobalAllocator) (small_start initial_size : ℕ) : Type 0 where
  pub blocks : HasBlocks s (addresses (initial_size / block_size) small_start)
  pub chunks : HasLayout s (free_cell (initial_size - chunk_header_size) ∷ [])
  pub mapped : IsMapped s

-- The invariants, from the state that the loop leaves.
Pushed-Ready :
    (self : GlobalAllocator) {s : GlobalAllocator} (finalizers : Hash.Hash)
    (small_start large_start initial_size : ℕ)
    → Fits self.memory_limit small_start initial_size
    → Fits self.memory_limit large_start initial_size
    → initial_size % block_size ≡ 0
    → Pushed small_start
        (small_start + initial_size / block_size * block_size)
        (with_small self small_start initial_size)
        (addresses (initial_size / block_size) small_start)
        s
    → Ready
        (record (init_large s large_start initial_size) { finalizers = finalizers })
        small_start
        initial_size
unfolding init_large
Pushed-Ready self {s} finalizers small_start large_start initial_size f g whole p =
    let layout = init_large-HasLayout s self.memory_limit large_start initial_size g in
    let size : initial_size / block_size * block_size ≡ initial_size = omega arith in
    record {
      blocks =
          subst
            (λ t.
              HasBlocks (record (init_large t large_start initial_size) { finalizers = finalizers })
                (addresses (initial_size / block_size) small_start))
            (sym p.same)
            (record {
              holds = p.queue;
              inside = rw size at p.inside;
              count = omega (arith, length-addresses (initial_size / block_size) small_start);
              positive = f.positive;
              extends = refl;
              mapped = f.mapped;
              limited = f.limited;
              within = f.within;
              nonempty = omega (arith, f.large);
            });
      chunks = record { layout = layout.layout; extends = layout.extends };
      mapped =
          subst
            (λ t.
              IsMapped (record (init_large t large_start initial_size) { finalizers = finalizers }))
            (sym p.same)
            (record { mapped = g.mapped; limited = omega (arith, f.limited); within = f.within });
    }

-- The finalizers' table of eight entries.
create-ok : (hash : ℕ → ℕ) (fuel : ℕ) → (t : Hash.Hash) × (Hash.create hash fuel 8 ≡ ok t)
unfolding Hash.create Hash.resize Hash.grow_capacity
create-ok hash fuel = (_, refl)

-- For an initial size of whole blocks, two or more, twice which is within a memory limit below 2 ^
-- 46, and mappings that are not NULL and end below 2 ^ 64, `init` ends, with fuel for one step more
-- than there are blocks, and fails no assertion. It sets up both spaces: the free list holds all
-- blocks of the small space in address order, the large space is one free chunk, and both are
-- within the limit.
pub init-Ready :
    (hash : ℕ → ℕ) (memory_limit free_space_divisor small_map large_map fuel : ℕ)
    (self : GlobalAllocator) (initial_size : ℕ)
    → Fits memory_limit (map_and_align small_map initial_size) initial_size
    → Fits memory_limit (map_and_align large_map initial_size) initial_size
    → initial_size % block_size ≡ 0
    → initial_size / block_size < fuel
    → Returns
        (init hash memory_limit free_space_divisor small_map large_map fuel self initial_size)
        λ s. Ready s (map_and_align small_map initial_size) initial_size
unfolding init
init-Ready hash memory_limit divisor small_map large_map fuel self initial_size f g whole h =
    let s = record self {
      memory_limit = memory_limit;
      free_space_divisor = divisor;
      allocated_bytes_since_collect = 0;
      total_allocated_bytes = 0;
    } in
    let small = map_and_align small_map initial_size in
    let (t, run, p) = init_small-Pushed fuel s memory_limit small initial_size f whole h in
    let (table, made) = create-ok hash fuel in
    (
      record (init_large t (map_and_align large_map initial_size) initial_size) {
        finalizers = table;
      },
      rw (le→leb (block_size * 2) initial_size (omega (arith, f.large)), whole, run, made) refl,
      Pushed-Ready s table small (map_and_align large_map initial_size) initial_size f g whole p,
    )
