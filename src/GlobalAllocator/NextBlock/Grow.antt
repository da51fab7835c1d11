-- ===== src/GlobalAllocator/NextBlock/Grow.antt =====
-- Growth of the small object space: the new blocks join the queue of the free ones.
use gc.Base.{
  ℕ, zero, suc, ◌+◌, ◌*◌, ◌/◌, ◌^◌, ◌≤◌, ◌<◌, ◌≡◌, refl, sym, ap, subst, ◌⊎◌, inl, inr, List, ◌++◌,
  arith, length, length-append, Bool-cases, ltb, ltb→lt, add64, sub64, add64-add, aborted, Returns,
}
use gc.Block.{block_size}
use gc.GlobalAllocator.{
  GlobalAllocator, round_to_next_multiple, small_increment, int_steps, push_blocks, grow_small,
}
use gc.GlobalAllocator.NextBlock.Pushed.{addresses, HasBlocks, Pushed, push_blocks-Pushed}

-- The growth does not fit the memory limit.
abbrev pub OverSmall : GlobalAllocator → Type 0
OverSmall s = s.memory_limit < s.small_heap_size + s.large_heap_size + small_increment s

int_steps-small : (n : ℕ) → n < 2 ^ 31 → int_steps n ≡ n
unfolding int_steps
int_steps-small n h = ground arith

-- The growth is some whole blocks, at least one.
increment-blocks :
    (s : GlobalAllocator)
    → s.small_heap_size < 2 ^ 46
    → block_size ≤ s.small_heap_size
    → (small_increment s / block_size * block_size ≡ small_increment s)
      × (0 < small_increment s / block_size)
      × (small_increment s < 2 ^ 46)
unfolding small_increment round_to_next_multiple add64 sub64
increment-blocks s h k = omega arith

pub length-addresses : (n p : ℕ) → length (addresses n p) ≡ n
length-addresses zero p = refl
length-addresses (suc n) p = ap suc (length-addresses n (p + block_size))

-- The state with the new blocks in the queue is in order.
grown-HasBlocks :
    {s s' : GlobalAllocator} {xs : List ℕ} (increment n : ℕ)
    → HasBlocks s xs
    → n * block_size ≡ increment
    → s.small_heap_size + s.large_heap_size + increment ≤ s.memory_limit
    → Pushed s.small_heap_start
        (s.small_heap_stop + n * block_size)
        (record s {
          small_heap_stop = s.small_heap_stop + increment;
          small_heap_size = s.small_heap_size + increment;
        })
        (xs ++ addresses n s.small_heap_stop)
        s'
    → HasBlocks s' (xs ++ addresses n s.small_heap_stop)
grown-HasBlocks {s} {s'} {xs} increment n w whole room p =
    subst (λ t. HasBlocks t (xs ++ addresses n s.small_heap_stop)) (sym p.same)
      (record {
        holds = p.queue;
        inside = rw whole at p.inside;
        count = omega (
          arith,
          w.count,
          length-append xs (addresses n s.small_heap_stop),
          length-addresses n s.small_heap_stop,
        );
        positive = w.positive;
        extends = omega (arith, w.extends);
        mapped = w.mapped;
        limited = w.limited;
        within = omega arith;
        nonempty = omega (arith, w.nonempty);
      })

-- With the free list in order, and a limit below 2 ^ 46, growth of the small space either stops the
-- program, and then the limit would be passed, or puts all the new blocks, in address order, behind
-- the others of the free list, which is in order again.
pub grow_small-HasBlocks :
    {s : GlobalAllocator} {xs : List ℕ}
    → HasBlocks s xs
    → (OverSmall s × (grow_small s ≡ aborted))
      ⊎ Returns
          (grow_small s)
          λ s'. HasBlocks s' (xs ++ addresses (small_increment s / block_size) s.small_heap_stop)
unfolding grow_small
grow_small-HasBlocks {s} {xs} w =
    let (whole, some_blocks, bound) =
      increment-blocks s (omega (arith, w.limited, w.within)) w.nonempty in
    let sum1 = add64-add s.small_heap_size s.large_heap_size (omega (arith, w.limited, w.within)) in
    let sum2 =
      add64-add (s.small_heap_size + s.large_heap_size) (small_increment s)
        (omega (arith, w.limited, w.within, bound)) in
    let steps = int_steps-small (small_increment s / block_size) (omega (arith, bound)) in
    elim (Bool-cases
      (ltb s.memory_limit (s.small_heap_size + s.large_heap_size + small_increment s))) [
        | inl over ↦ inl (ltb→lt _ _ over, rw (sum1, sum2, over) refl)
        | inr under ↦
            let room : s.small_heap_size + s.large_heap_size + small_increment s ≤ s.memory_limit =
              ground arith in
            let n = small_increment s / block_size in
            let size = add64-add s.small_heap_size (small_increment s) (omega (arith, w.limited)) in
            let stop =
              add64-add s.small_heap_stop (small_increment s)
                (omega (arith, w.extends, w.mapped)) in
            let grown = record s {
              small_heap_stop = s.small_heap_stop + small_increment s;
              small_heap_size = s.small_heap_size + small_increment s;
            } in
            let p =
              push_blocks-Pushed n s.small_heap_start grown s.small_heap_stop xs w.holds w.inside
                (omega (arith, w.extends)) (omega (arith, w.extends, w.positive))
                (omega (arith, w.extends, w.mapped, whole))
                (omega (arith, w.count, w.limited, whole)) in
            inr (
              push_blocks n grown s.small_heap_stop,
              rw (sum1, sum2, under, size, stop, steps) refl,
              grown-HasBlocks (small_increment s) n w whole room p,
            )
      ]

-- After growth the queue is not empty.
pub grown-length :
    {s : GlobalAllocator} {xs : List ℕ}
    → HasBlocks s xs
    → 0 < length (xs ++ addresses (small_increment s / block_size) s.small_heap_stop)
grown-length {s} {xs} w =
    let n = small_increment s / block_size in
    let b = increment-blocks s (omega (arith, w.limited, w.within)) w.nonempty in
    omega (
      arith,
      b.1,
      length-append xs (addresses n s.small_heap_stop),
      length-addresses n s.small_heap_stop,
    )
