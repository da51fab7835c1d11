-- ===== src/LocalAllocator.antt =====
-- src/local_allocator.c and include/local_allocator.h: the bump allocator of a thread for small
-- objects. The operations take the state with the memory in it, and the address of the local allocator
-- there, since a collection that they start may reset it. As in the code, a free block leaves the
-- pointer to the next hole as it was.
pub mod Holes
pub mod Recycled
use gc.Base.{
  ℕ, zero, suc, ◌+◌, ◌-◌, ◌^◌, Bool, true, false, ◌&&◌, ltb, leb, ◌==◌, if◌then◌else◌, add64, Run,
  ok, aborted, out_of_fuel, ◌>>=◌, ◌>>◌, assert,
}
use gc.Object
use gc.Object.{Object, object_header}
use gc.LineHeader.{line_size, word_size}
use gc.Block
use gc.Block.{Block}
use gc.Memory.{Hole, LocalAllocator}
use gc.GlobalAllocator.{GlobalAllocator, Environment, round_to_next_multiple, increment_counters}
use gc.GlobalAllocator.NextBlock.{next_block, next_free_block}

abbrev pub null : ℕ
null = 0

abbrev pub large_object_size : ℕ
large_object_size = 8192

unfoldable pub put : GlobalAllocator → ℕ → LocalAllocator → GlobalAllocator
put s self l = record s { local_allocators = λ p. if p == self then l else s.local_allocators p }

unfoldable pub write_object : GlobalAllocator → ℕ → Object → GlobalAllocator
write_object s p object = record s { objects = λ q. if q == p then object else s.objects q }

-- `((Object *)stop)->size = 0`, unless the object reaches the limit.
unfoldable pub clear_next : GlobalAllocator → ℕ → ℕ → GlobalAllocator
unfolding write_object
clear_next s stop limit =
    if ltb stop limit then write_object s stop (record (s.objects stop) { size = 0 }) else s

-- What both allocation loops do with an object that fits: its line, and the end behind it.
unfoldable pub place_object : GlobalAllocator → ℕ → ℕ → ℕ → ℕ → Run GlobalAllocator
place_object s block cursor stop limit = Block.line_update block (s.blocks block) cursor >>= λ b.
    ok (clear_next (record s { blocks = Block.write s.blocks block b }) stop limit)

-- The cursor into a block that `nextBlock` gave.
unfoldable pub enter_block : GlobalAllocator → ℕ → ℕ → Run GlobalAllocator
unfolding put
enter_block s self block =
    let l = record (s.local_allocators self) { block = block } in
    let b = s.blocks block in
    let fresh = put s self (record l { cursor = Block.start block; limit = Block.stop block }) in
    let recycled = Block.first_free_line block b >>= λ cursor. ok (
      put s self (record l {
        cursor = cursor;
        limit = (s.holes cursor).limit;
        next = (s.holes cursor).next;
      })) in
    if Block.is_free b then ok fresh else (if Block.is_recyclable b then recycled else aborted)

-- Whether there was a next hole.
unfoldable pub find_next_hole : GlobalAllocator → ℕ → GlobalAllocator × Bool
unfolding put
find_next_hole s self =
    let l = s.local_allocators self in
    if l.next == null then (s, false) else (
      put s self (record l {
        cursor = l.next;
        limit = (s.holes l.next).limit;
        next = (s.holes l.next).next;
      }),
      true,
    )

module _ (env : Environment) (fuel : ℕ) where
  unfoldable pub init_cursor : GlobalAllocator → ℕ → Run GlobalAllocator
  init_cursor s self = next_block env fuel s >>= λ r. enter_block r.0 self r.1

  unfoldable pub init_overflow_cursor : GlobalAllocator → ℕ → Run GlobalAllocator
  init_overflow_cursor s self = next_free_block env fuel s >>= λ r. ok (
      put r.0 self (record ((r.0).local_allocators self) {
        overflow_block = r.1;
        overflow_cursor = Block.start r.1;
        overflow_limit = Block.stop r.1;
      }))

  unfoldable pub reset : GlobalAllocator → ℕ → Run GlobalAllocator
  reset s self = init_cursor s self >>= λ t. init_overflow_cursor t self

  -- `LocalAllocator_init`, which has the global allocator in the state.
  unfoldable pub init : GlobalAllocator → ℕ → Run GlobalAllocator
  init s self = reset s self

  -- The object's address.
  unfoldable pub overflow_allocate_small : ℕ → GlobalAllocator → ℕ → ℕ → Run (GlobalAllocator × ℕ)
  overflow_allocate_small zero s self size = out_of_fuel
  overflow_allocate_small (suc rounds) s self size =
      let l = s.local_allocators self in
      let stop = add64 l.overflow_cursor size in
      let fit = place_object s l.overflow_block l.overflow_cursor stop l.overflow_limit >>= λ t.
      ok (
        put t self (record (t.local_allocators self) { overflow_cursor = stop }),
        l.overflow_cursor,
      ) in
      let again = init_overflow_cursor s self >>= λ t. overflow_allocate_small rounds t self size in
      if leb stop l.overflow_limit then fit else again

  -- The object's address, or NULL at the end of the block.
  unfoldable pub try_allocate_small : ℕ → GlobalAllocator → ℕ → ℕ → Run (GlobalAllocator × ℕ)
  try_allocate_small zero s self size = out_of_fuel
  try_allocate_small (suc rounds) s self size =
      let l = s.local_allocators self in
      let stop = add64 l.cursor size in
      let fit = place_object s l.block l.cursor stop l.limit >>= λ t.
      ok (put t self (record (t.local_allocators self) { cursor = stop }), l.cursor) in
      let next = find_next_hole s self in
      let again = try_allocate_small rounds next.0 self size in
      let overflow = overflow_allocate_small fuel s self size in
      let leave = if next.1 then again else ok (s, null) in
      let miss =
        if ltb line_size size && ltb line_size (l.limit - l.cursor) then overflow else leave in
      if leb stop l.limit then fit else miss

  -- `Object_allocate` and the counters, for the object that was found.
  unfoldable pub finish_small : GlobalAllocator → ℕ → ℕ → ℕ → ℕ → GlobalAllocator × ℕ
  unfolding write_object
  finish_small s object rsize size atomic = (
    increment_counters (write_object s object (Object.allocate (s.objects object) rsize atomic))
        size,
    Object.mutator_address object,
  )

  unfoldable pub allocate_small_loop :
      ℕ → GlobalAllocator → ℕ → ℕ → ℕ → ℕ → Run (GlobalAllocator × ℕ)
  allocate_small_loop zero s self rsize size atomic = out_of_fuel
  allocate_small_loop (suc rounds) s self rsize size atomic =
      try_allocate_small fuel s self rsize >>= λ r.
      let again =
        init_cursor r.0 self >>= λ t. allocate_small_loop rounds t self rsize size atomic in
      (if r.1 == null then again else ok (finish_small r.0 r.1 rsize size atomic))

  unfoldable pub allocate_small : GlobalAllocator → ℕ → ℕ → ℕ → Run (GlobalAllocator × ℕ)
  allocate_small s self size atomic =
      let rsize = round_to_next_multiple (add64 size object_header) word_size in
      assert (leb rsize large_object_size) >> allocate_small_loop fuel s self rsize size atomic
