-- ===== src/Tests/Allocator.antt =====
-- Attempts to allocate, and growth.
use gc.Base.{◌==◌, if◌then◌else◌, Run}
use gc.Chunk.{chunk_header_size, sizeof_chunk}
use gc.Base.{add64, sub64}
use gc.Base.{
  ℕ, zero, suc, ◌+◌, ◌*◌, ◌/◌, ◌^◌, ◌≤◌, ◌<◌, ◌≡◌, ◌⊎◌, inl, inr, refl, true, false, [], ◌++◌,
  arith, Bool-cases, ltb, if◌then◌else◌, ok, aborted, Returns,
}
use native.Mathlib.Numerals.{unary_clauses}
use gc.Object.{object_header}
use gc.Tests.Chunks.{base, end, three, heap, heap-IsLayout}
use gc.Block
use gc.Block.{Blocks, block_size}
use gc.Hash
use gc.Hash.{zeroed}
use gc.ChunkList.Find.{here, there}
use gc.GlobalAllocator.{
  GlobalAllocator, Environment, small_increment, try_allocate_large, grow_large, grow_small,
}
use gc.GlobalAllocator.Place.{place}
use gc.GlobalAllocator.Large.{HasLayout, Attempt, try_allocate_large-place}
use gc.GlobalAllocator.Grow.{IsMapped, IsCeilLog2, growth, Grown, Over, grow_large-Grown}
use gc.GlobalAllocator.{map_and_align}
use gc.GlobalAllocator.Deallocate.{deallocate_large, released, Finalizes, deallocate_large-released}
use gc.GlobalAllocator.Init.{init}
use gc.GlobalAllocator.Init.Ready.{Fits, Ready, init-Ready}
use gc.GlobalAllocator.NextBlock.Pushed.{HasBlocks, addresses}
use gc.GlobalAllocator.NextBlock.Grow.{OverSmall, grow_small-HasBlocks}

-- The least exponent from `k` on whose power reaches `n`, of at most `steps` more.
log_from : ℕ → ℕ → ℕ → ℕ
log_from zero k n = k
log_from (suc steps) k n = let rest = log_from steps (suc k) n in if ltb (2 ^ k) n then rest else k

log_from-bounds :
    (steps k n : ℕ)
    → n ≤ 2 ^ (k + steps)
    → 2 ^ k < 2 * n
    → (n ≤ 2 ^ log_from steps k n) × (2 ^ log_from steps k n < 2 * n)
unfolding log_from
log_from-bounds zero k n hi lo = let e : k + 0 ≡ k = omega arith in (rw e at hi, lo)
log_from-bounds (suc steps) k n hi lo = elim (Bool-cases (ltb (2 ^ k) n)) [
  | inl more ↦
      let p : 2 ^ suc k ≡ 2 * 2 ^ k = simp unary_clauses (omega arith) in
      rw more (
        log_from-bounds steps (suc k) n
          (let e : k + suc steps ≡ suc k + steps = omega arith in rw e at hi) (ground (arith, p)))
  | inr enough ↦ rw enough (ground arith)
]

pub ceil_log2 : ℕ → ℕ
ceil_log2 n = log_from 40 0 n

pub ceil_log2-IsCeilLog2 : IsCeilLog2 ceil_log2
unfolding ceil_log2
ceil_log2-IsCeilLog2 = record {
  enough = λ n pos hi. (log_from-bounds 40 0 n hi (omega arith)).0;
  least = λ n pos hi. (log_from-bounds 40 0 n hi (omega arith)).1;
}

abbrev pub env : Environment
env = record { ceil_log2 = ceil_log2; gc_collect = λ s. ok s; is_collecting = false }

-- The large space is that of the chunk tests; the small space has two blocks, both in use.
abbrev pub state : GlobalAllocator
state = record {
  small_heap_size = 65536;
  small_heap_start = 0x200000;
  small_heap_stop = 0x210000;
  free_list = record { first = 0; last = 0; size = 0 };
  recyclable_list = record { first = 0; last = 0; size = 0 };
  large_heap_size = 320;
  large_heap_start = base;
  large_heap_stop = end;
  large_chunk_list = heap;
  finalizers = record { is_null = true; entries = zeroed; mask = 0; used = 0; deleted = 0 };
  memory_limit = 2 ^ 30;
  free_space_divisor = 3;
  allocated_bytes_since_collect = 2 ^ 20;
  total_allocated_bytes = 2 ^ 21;
  blocks = λ p. Block.init;
  holes = λ p. record { limit = 0; next = 0 };
  objects = λ p. record { size = 0; marked = 0; atomic = 0 };
  local_allocators = λ p. record {
    block = 0;
    cursor = 0;
    limit = 0;
    next = 0;
    overflow_block = 0;
    overflow_cursor = 0;
    overflow_limit = 0;
  };
}

state-HasLayout : HasLayout state three
state-HasLayout = record { layout = heap-IsLayout; extends = refl }

state-IsMapped : IsMapped state
state-IsMapped = record { mapped = omega arith; limited = omega arith; within = omega arith }

state-HasBlocks : HasBlocks state []
state-HasBlocks = record {
  holds = record { chain = refl; last = refl; size = refl };
  inside = tt;
  count = omega arith;
  positive = omega arith;
  extends = refl;
  mapped = omega arith;
  limited = omega arith;
  within = omega arith;
  nonempty = omega arith;
}

try_allocate_large-place_example :
    Attempt state three 72 0
      (place (72 + object_header) 0 base three)
      (try_allocate_large 4 state 72 0)
try_allocate_large-place_example =
    try_allocate_large-place 4 72 0 state-HasLayout (omega arith) (omega arith)

grow_large-Grown_example :
    (Over env ceil_log2-IsCeilLog2 state 136 × (grow_large env 4 state 136 ≡ aborted))
    ⊎ Returns (grow_large env 4 state 136) (Grown state three (growth env 136))
grow_large-Grown_example =
    grow_large-Grown env ceil_log2-IsCeilLog2 4 136 state-HasLayout state-IsMapped (omega arith)
      (omega arith)

grow_small-HasBlocks_example :
    (OverSmall state × (grow_small state ≡ aborted))
    ⊎ Returns
        (grow_small state)
        λ s'. HasBlocks s' ([] ++ addresses (small_increment state / block_size) 0x210000)
grow_small-HasBlocks_example = grow_small-HasBlocks state-HasBlocks

-- The first mapping is aligned already, the second is not.
Fits-small : Fits (2 ^ 30) (map_and_align 0x200000 65536) 65536
unfolding map_and_align sub64
Fits-small = record {
  positive = omega arith;
  mapped = omega arith;
  limited = omega arith;
  within = omega arith;
  large = omega arith;
}

Fits-large : Fits (2 ^ 30) (map_and_align 0x801000 65536) 65536
unfolding map_and_align Block.from add64 sub64
Fits-large = record {
  positive = omega arith;
  mapped = omega arith;
  limited = omega arith;
  within = omega arith;
  large = omega arith;
}

init-Ready_example :
    Returns
      (init (λ key. key) (2 ^ 30) 3 0x200000 0x801000 10 state 65536)
      λ s. Ready s (map_and_align 0x200000 65536) 65536
init-Ready_example =
    init-Ready (λ key. key) (2 ^ 30) 3 0x200000 0x801000 10 state 65536 Fits-small Fits-large refl
      (omega arith)

-- A table with a finalizer for the last chunk's object.
abbrev finalizers : Hash.Hash
finalizers = record {
  is_null = false;
  entries = λ i.
      if i == 0 then record { status = Hash.allocated; key = base + 208; value = 5 } else zeroed i;
  mask = 7;
  used = 1;
  deleted = 0;
}

abbrev finalizing : GlobalAllocator
finalizing = record state { finalizers = finalizers }

finalizing-HasLayout : HasLayout finalizing three
finalizing-HasLayout = record { layout = heap-IsLayout; extends = refl }

abbrev finalize : ℕ → ℕ → GlobalAllocator → Run GlobalAllocator
finalize callback address s = ok s

finalize-Finalizes : Finalizes finalize
finalize-Finalizes = record { finalizes = λ callback address s. (s, refl, refl, refl, refl, refl) }

abbrev left : Hash.Hash
left = record finalizers {
  entries =
      Hash.write finalizers.entries 0
        (record { status = Hash.deleted; key = base + 208; value = 5 });
  deleted = 1;
}

delete_finalizer_run :
    Hash.delete (λ key. 0) 4 finalizers (base + 192 + chunk_header_size) ≡ ok (left, 5)
unfolding Hash.delete Hash.probe Hash.clear_tombstones add64
delete_finalizer_run = refl

deallocate_large-released_example :
    Returns
      (deallocate_large (λ key. 0) 4 finalize finalizing (base + 192 + sizeof_chunk))
      λ s'. HasLayout s' (released (base + 192) base three)
deallocate_large-released_example =
    deallocate_large-released (λ key. 0) 4 finalize (base + 192) left 5 finalize-Finalizes
      finalizing-HasLayout (there (there (here refl))) delete_finalizer_run
