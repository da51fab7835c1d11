-- ===== src/Immix.antt =====
-- src/immix.c: the public interface. The mutex has no state in the model, which has one thread at a
-- time: the calling thread is given by the address of its local allocator, as
-- `pthread_getspecific` gives it. `malloc` of the C library is taken to succeed, with the address that
-- it returns as a parameter.
pub mod Stats
pub mod Usage
pub mod Route
use gc.Base.{
  ℕ, ◌+◌, ◌-◌, Bool, true, false, not, ◌&&◌, ltb, leb, ◌==◌, if◌then◌else◌, add64, sub64, Run, ok,
  ◌>>=◌,
}
use gc.Object
use gc.Object.{object_header}
use gc.Array
use gc.Array.{Array}
use gc.GlobalAllocator
use gc.GlobalAllocator.{GlobalAllocator, Environment, in_large_heap, allocate_large, heap_size}
use gc.GlobalAllocator.Deallocate.{delete_finalizer, deallocate_large}
use gc.GlobalAllocator.Init
use gc.GlobalAllocator.Finalizers.{object_at, register_finalizer}
use gc.LocalAllocator
use gc.LocalAllocator.{large_object_size, allocate_small}
use gc.Collector
use gc.Collector.{Program}
use gc.Collector.State.{Collector}

abbrev pub null : ℕ
null = 0

-- The static variables of the file. The collector's state holds the global allocator.
pub record Immix : Type 0 where
  pub collector : Collector
  pub local_allocators : Array

-- `memcpy(to, from, size)` of regions that do not overlap.
unfoldable pub copy : (ℕ → ℕ) → ℕ → ℕ → ℕ → (ℕ → ℕ)
copy bytes to from size q =
    if leb to q && ltb (q - to) size then bytes (from + (q - to)) else bytes q

module _ (env : Environment) (fuel : ℕ) where
  unfoldable pub malloc_with_atomic : GlobalAllocator → ℕ → ℕ → ℕ → Run (GlobalAllocator × ℕ)
  malloc_with_atomic s local size atomic =
      let small = allocate_small env fuel s local size atomic in
      let large = allocate_large env fuel s size atomic in
      if leb size (large_object_size - object_header) then small else large

  unfoldable pub malloc : GlobalAllocator → ℕ → ℕ → Run (GlobalAllocator × ℕ)
  malloc s local size = malloc_with_atomic s local size 0

  unfoldable pub malloc_atomic : GlobalAllocator → ℕ → ℕ → Run (GlobalAllocator × ℕ)
  malloc_atomic s local size = malloc_with_atomic s local size 1

  module _ (hash : ℕ → ℕ) (finalizer : ℕ → ℕ → GlobalAllocator → Run GlobalAllocator) where
    unfoldable pub free : GlobalAllocator → ℕ → Run GlobalAllocator
    free s pointer =
        let released = deallocate_large hash fuel finalizer s pointer in
        if in_large_heap s pointer then released else ok s

    -- A finalizer goes with the object to its new place.
    unfoldable pub move_finalizer : GlobalAllocator → ℕ → ℕ → Run GlobalAllocator
    move_finalizer s object new_object = delete_finalizer hash fuel finalizer s object >>= λ r.
        let registered = register_finalizer hash fuel r.0 new_object r.1 in
        (if not (r.1 == null) then registered else ok r.0)

    -- The part of `GC_realloc` for an object that has to move.
    unfoldable pub reallocate :
        GlobalAllocator → (ℕ → ℕ) → ℕ → ℕ → ℕ → Run (GlobalAllocator × (ℕ → ℕ) × ℕ)
    reallocate s bytes local pointer size =
        let object = sub64 pointer object_header in
        let available = Object.mutator_size (object_at s object) in
        malloc_with_atomic s local size (object_at s object).atomic >>= λ r.
        move_finalizer r.0 object (sub64 r.1 object_header) >>= λ t.
        free t pointer >>= λ u. ok (u, copy bytes r.1 pointer available, r.1)

    unfoldable pub realloc :
        GlobalAllocator → (ℕ → ℕ) → ℕ → ℕ → ℕ → Run (GlobalAllocator × (ℕ → ℕ) × ℕ)
    realloc s bytes local pointer size =
        let fresh = malloc s local size >>= λ r. ok (r.0, bytes, r.1) in
        let freed = free s pointer >>= λ t. ok (t, bytes, null) in
        let available = Object.mutator_size (object_at s (sub64 pointer object_header)) in
        let move = reallocate s bytes local pointer size in
        if pointer == null
        then fresh
        else (if size == 0
            then freed
            else (if leb size available then ok (s, bytes, pointer) else move))

    unfoldable pub register_finalizer_of : GlobalAllocator → ℕ → ℕ → Run GlobalAllocator
    register_finalizer_of s pointer callback =
        register_finalizer hash fuel s (sub64 pointer object_header) callback

unfoldable pub with_heap : Immix → GlobalAllocator → Immix
with_heap s heap = record s { collector = record (s.collector) { global_allocator = heap } }

unfoldable pub register_collect_callback : Immix → ℕ → Immix
register_collect_callback s callback = record s {
  collector = Collector.register_collect_callback s.collector callback;
}

unfoldable pub is_collecting : Immix → Bool
is_collecting s = not (Collector.is_collecting s.collector == 0)

unfoldable pub add_roots : Immix → ℕ → ℕ → Run Immix
add_roots s top bottom =
    Collector.add_roots s.collector top bottom >>= λ c. ok (record s { collector = c })

unfoldable pub in_heap : Immix → ℕ → Bool
in_heap s pointer = GlobalAllocator.in_heap s.collector.global_allocator pointer

unfoldable pub memory_use : Immix → ℕ
memory_use s = heap_size s.collector.global_allocator

module _ (env : Environment) (fuel : ℕ) where
  unfoldable pub init_thread : (ℕ → ℕ) → Immix → ℕ → Run Immix
  init_thread fresh s local =
      LocalAllocator.init env fuel s.collector.global_allocator local >>= λ heap.
      ok
        (record (with_heap s heap) { local_allocators = Array.push fresh s.local_allocators local })

  unfoldable pub deinit_thread : Immix → ℕ → Immix
  deinit_thread s local = record s { local_allocators = Array.delete s.local_allocators local }

  -- The loop that resets every local allocator, while a collection runs.
  unfoldable pub reset_local_allocators : Array → GlobalAllocator → Run GlobalAllocator
  reset_local_allocators locals heap =
      Array.each
        (λ local run.
          run >>= λ s. LocalAllocator.reset (record env { is_collecting = true }) fuel s local)
        locals (ok heap)

  unfoldable pub collect_once : Program → Immix → Run Immix
  collect_once program s = do
    collecting ← Collector.set_collecting s.collector 1
    collected ← Collector.collect program fuel collecting
    heap ← reset_local_allocators s.local_allocators collected.global_allocator
    done ← Collector.set_collecting (record collected { global_allocator = heap }) 0
    ok (record s { collector = done })

-- `GC_init`, given what the C library and the options return: the state of memory, the parameters of
-- the global allocator's set-up, the contents of fresh memory, and the first thread's local allocator.
module _ (env : Environment) (hash : ℕ → ℕ)
    (memory_limit free_space_divisor small_map large_map : ℕ) where
  unfoldable pub init : ℕ → (ℕ → ℕ) → GlobalAllocator → ℕ → ℕ → Run Immix
  init fuel fresh memory initial_size local = do
    heap ←
        GlobalAllocator.Init.init hash memory_limit free_space_divisor small_map large_map fuel
          memory initial_size
    init_thread env fuel fresh
        (record { collector = Collector.init fresh heap; local_allocators = Array.init fresh 16 })
        local
