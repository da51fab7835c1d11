-- ===== src/GlobalAllocator/NextBlock.antt =====
-- Blocks for the local allocators: `GC_GlobalAllocator_nextBlock` and
-- `GC_GlobalAllocator_nextFreeBlock` of src/global_allocator.c.
pub mod Pushed
pub mod Grow
pub mod Free
use gc.Base.{ℕ, Bool, true, false, ◌==◌, if◌then◌else◌, Run, ok, aborted, ◌>>=◌}
use gc.BlockList
use gc.BlockList.{is_empty, null}
use gc.GlobalAllocator.{GlobalAllocator, Environment, grow_small, try_collect}

-- `BlockList_shift` on the free list and on the recyclable list.
unfoldable pub shift_free : GlobalAllocator → GlobalAllocator × ℕ
shift_free self =
    let r = BlockList.shift self.blocks self.free_list in (record self { free_list = r.0 }, r.1)

unfoldable pub shift_recyclable : GlobalAllocator → GlobalAllocator × ℕ
shift_recyclable self =
    let r = BlockList.shift self.blocks self.recyclable_list in
    (record self { recyclable_list = r.0 }, r.1)

-- The last shift: without a block even then, the program stops.
unfoldable pub shift_or_abort : GlobalAllocator → Run (GlobalAllocator × ℕ)
unfolding shift_free
shift_or_abort self = let r = shift_free self in if r.1 == null then aborted else ok r

unfoldable pub grow_if_empty : GlobalAllocator → Run GlobalAllocator
grow_if_empty self = if is_empty self.free_list then grow_small self else ok self

-- Steps 5 and 6 of `nextBlock`.
unfoldable pub grow_and_shift : GlobalAllocator → Run (GlobalAllocator × ℕ)
grow_and_shift self = grow_if_empty self >>= λ s. shift_or_abort s

module _ (env : Environment) (fuel : ℕ) where
  -- Steps 3 and 4 of `nextBlock`.
  unfoldable pub collect_and_shift : GlobalAllocator → Run (GlobalAllocator × ℕ)
  collect_and_shift self = try_collect env fuel self >>= λ c.
      let r = shift_recyclable c.0 in
      let recycled = if r.1 == null then grow_and_shift r.0 else ok r in
      if c.1 then recycled else grow_and_shift c.0

  unfoldable pub next_block : GlobalAllocator → Run (GlobalAllocator × ℕ)
  next_block self =
      let r = shift_recyclable self in
      let f = shift_free r.0 in
      let free = if f.1 == null then collect_and_shift f.0 else ok f in
      if r.1 == null then free else ok r

  -- Step 2 of `nextFreeBlock`.
  unfoldable pub collect_or_grow : GlobalAllocator → Run GlobalAllocator
  collect_or_grow self =
      try_collect env fuel self >>= λ c. if c.1 then grow_if_empty c.0 else grow_small c.0

  unfoldable pub next_free_block : GlobalAllocator → Run (GlobalAllocator × ℕ)
  next_free_block self =
      let f = shift_free self in
      let more = collect_or_grow f.0 >>= λ s. shift_or_abort s in if f.1 == null then more else ok f
