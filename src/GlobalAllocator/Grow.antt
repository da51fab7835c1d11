-- ===== src/GlobalAllocator/Grow.antt =====
-- Growth of the large object space, and the whole of `GC_GlobalAllocator_allocateLarge`.
use gc.Base.{
  ℕ, ◌+◌, ◌-◌, ◌*◌, ◌%◌, ◌^◌, ◌≤◌, ◌<◌, ◌≡◌, ◌∙◌, refl, ◌⊎◌, inl, inr, [], ◌∷◌, ◌++◌, arith,
  Bool-cases, word_mod, ltb, add64, sub64, add64-add, sub64-sub, ltb→lt, aborted, Returns,
}
use gc.Chunk.{sizeof_chunk, chunk_header_size}
use gc.ChunkList.Layout.{Cells, extent}
use gc.ChunkList.Push.{push-IsLayout}
use gc.ChunkList.Split.{free_cell}
use gc.Block.{block_size}
use gc.LineHeader.{word_size}
use gc.GlobalAllocator.{
  GlobalAllocator, Environment, round_to_next_multiple, extend_large, grow_large,
}
use gc.GlobalAllocator.Large.{HasLayout}

-- Rounding up to whole blocks and to whole words.
round-block :
    (n : ℕ)
    → n + block_size < word_mod
    → (n ≤ round_to_next_multiple n block_size)
      × (round_to_next_multiple n block_size < n + block_size)
unfolding round_to_next_multiple add64 sub64
round-block n h = omega arith

pub round-word :
    (n : ℕ)
    → n + word_size < word_mod
    → (n ≤ round_to_next_multiple n word_size)
      × (round_to_next_multiple n word_size < n + word_size)
unfolding round_to_next_multiple add64 sub64
round-word n h = omega arith

-- The mapping of the large space has room for the memory limit, and the heap respects the limit.
pub record IsMapped (s : GlobalAllocator) : Type 0 where
  pub mapped : s.large_heap_start + s.memory_limit < word_mod
  pub limited : s.memory_limit < 2 ^ 63
  pub within : s.small_heap_size + s.large_heap_size ≤ s.memory_limit

-- `ceil(log2(n))` in double precision is the exponent of the least power of two not below `n`.
-- This holds as long as the logarithm is not rounded to a whole number, and certainly up to 2 ^ 40.
pub record IsCeilLog2 (f : ℕ → ℕ) : Type 0 where
  pub enough : (n : ℕ) → 0 < n → n ≤ 2 ^ 40 → n ≤ 2 ^ f n
  pub least : (n : ℕ) → 0 < n → n ≤ 2 ^ 40 → 2 ^ f n < 2 * n

-- The bytes by which the space grows for an increment.
abbrev pub growth : Environment → ℕ → ℕ
growth env increment = round_to_next_multiple (2 ^ env.ceil_log2 increment % word_mod) block_size

-- The space has grown by `size` bytes, which are one free chunk at its end.
abbrev pub Grown : GlobalAllocator → Cells → ℕ → GlobalAllocator → Type 0
Grown s cs size s' =
    HasLayout s' (cs ++ free_cell (size - chunk_header_size) ∷ [])
    × IsMapped s'
    × (s'.large_heap_start ≡ s.large_heap_start)

extend_large-Grown :
    {s : GlobalAllocator} {cs : Cells} (size : ℕ)
    → HasLayout s cs
    → IsMapped s
    → sizeof_chunk ≤ size
    → s.small_heap_size + s.large_heap_size + size ≤ s.memory_limit
    → Grown s cs size (extend_large s size)
unfolding extend_large
extend_large-Grown {s} {cs} size w m lo room =
    let e : sub64 size chunk_header_size ≡ size - chunk_header_size =
      sub64-sub size chunk_header_size (omega arith) (omega (arith, m.limited)) in
    let stop : add64 s.large_heap_stop size
        ≡ s.large_heap_stop + extent (free_cell (size - chunk_header_size)) =
      add64-add s.large_heap_stop size (omega (arith, w.extends, m.mapped)) ∙ omega arith in
    let large : add64 s.large_heap_size size ≡ s.large_heap_size + size =
      add64-add s.large_heap_size size (omega (arith, m.limited)) in
    (
      record {
        layout =
            rw (stop, e)
              (push-IsLayout (size - chunk_header_size) w.layout (omega arith)
                (omega (arith, w.extends, m.mapped)));
        extends = rw (stop, large) (omega (arith, w.extends));
      },
      record { mapped = m.mapped; limited = m.limited; within = rw large (omega arith) },
      refl,
    )

module _ (env : Environment) (log : IsCeilLog2 env.ceil_log2) where
  pub growth_bounds : (n : ℕ) → 0 < n → n ≤ 2 ^ 40 → (n ≤ growth env n) × (growth env n < 2 ^ 42)
  growth_bounds n pos small =
      let p : 2 ^ env.ceil_log2 n % word_mod ≡ 2 ^ env.ceil_log2 n =
        omega (arith, log.least n pos small) in
      let r = round-block (2 ^ env.ceil_log2 n % word_mod) (omega (arith, log.least n pos small)) in
      omega (arith, r, log.enough n pos small, log.least n pos small)

  -- The growth for an increment does not fit the memory limit.
  abbrev pub Over : GlobalAllocator → ℕ → Type 0
  Over s n = s.memory_limit < s.small_heap_size + s.large_heap_size + growth env n

  -- For an increment from a chunk's header up to 2 ^ 40 bytes, growth of a laid out large space
  -- within its limit either stops the program, and then the limit would be passed, or adds one free
  -- chunk at the end that takes all the new bytes; the space is laid out and within its limit
  -- again.
  pub grow_large-Grown :
      {s : GlobalAllocator} {cs : Cells} (fuel n : ℕ)
      → HasLayout s cs
      → IsMapped s
      → sizeof_chunk ≤ n
      → n ≤ 2 ^ 40
      → (Over s n × (grow_large env fuel s n ≡ aborted))
        ⊎ Returns (grow_large env fuel s n) (Grown s cs (growth env n))
  unfolding grow_large
  grow_large-Grown {s} {cs} fuel n w m lo hi =
      let g = growth_bounds n (omega arith) hi in
      let sum1 =
        add64-add s.small_heap_size s.large_heap_size (omega (arith, m.limited, m.within)) in
      let sum2 =
        add64-add (s.small_heap_size + s.large_heap_size) (growth env n)
          (omega (arith, m.limited, m.within, g)) in
      elim (Bool-cases
        (ltb s.memory_limit (s.small_heap_size + s.large_heap_size + growth env n))) [
          | inl over ↦ inl (ltb→lt _ _ over, rw (sum1, sum2, over))
          | inr under ↦ inr (
            extend_large s (growth env n),
            rw (sum1, sum2, under),
            extend_large-Grown (growth env n) w m (omega arith) (ground arith),
          )
        ]
