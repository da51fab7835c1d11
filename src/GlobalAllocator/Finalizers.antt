-- ===== src/GlobalAllocator/Finalizers.antt =====
-- The finalizers of include/global_allocator.h: registered by object, and run for the objects that a
-- collection did not reach. A finalizer is a function of the program, and has no effect but on the
-- state; what it registers while the table is swept is not modelled.
use gc.Base.{ℕ, Bool, true, false, not, if◌then◌else◌, sub64, Run, ok, ◌>>=◌}
use gc.Object
use gc.Object.{Object}
use gc.Chunk.{chunk_header_size}
use gc.Hash
use gc.GlobalAllocator.{GlobalAllocator, in_large_heap}

-- The header at an address: a large object's stands in its chunk.
unfoldable pub object_at : GlobalAllocator → ℕ → Object
object_at self object =
    if in_large_heap self object
    then (self.large_chunk_list.chunks (sub64 object chunk_header_size)).object
    else self.objects object

module _ (hash : ℕ → ℕ) (fuel : ℕ) where
  unfoldable pub register_finalizer : GlobalAllocator → ℕ → ℕ → Run GlobalAllocator
  register_finalizer self object callback =
      Hash.insert hash fuel self.finalizers object callback >>= λ t.
      ok (record self { finalizers = t })

  module _ (finalizer : ℕ → ℕ → GlobalAllocator → GlobalAllocator) where
    -- Whether the object was finalized, and so leaves the table.
    unfoldable pub finalize_object_callback : ℕ → ℕ → GlobalAllocator → GlobalAllocator × Bool
    finalize_object_callback object callback self =
        if not (Object.is_marked (object_at self object))
        then (finalizer callback (Object.mutator_address object) self, true)
        else (self, false)

    unfoldable pub finalize_objects : GlobalAllocator → Run GlobalAllocator
    finalize_objects self =
        Hash.delete_if hash fuel (λ key value s. finalize_object_callback key value s)
          self.finalizers self
        >>= λ r. ok (record (r.0) { finalizers = r.1 })
