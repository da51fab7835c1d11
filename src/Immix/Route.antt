-- ===== src/Immix/Route.antt =====
-- How `GC_malloc` of src/immix.c divides the sizes between the two spaces.
use gc.Base.{
  ℕ, ◌+◌, ◌-◌, ◌%◌, ◌≤◌, ◌<◌, ◌≡◌, refl, ◌⊎◌, inl, inr, arith, Bool-cases, leb, leb→le, le→leb,
  add64, sub64,
}
use gc.Object.{object_header}
use gc.LineHeader.{word_size}
use gc.GlobalAllocator.{GlobalAllocator, Environment, round_to_next_multiple, allocate_large}
use gc.LocalAllocator.{large_object_size, allocate_small, allocate_small_loop}
use gc.Immix.{malloc_with_atomic}

-- The size that an object of the small space takes, header and rounding included.
pub record IsSmallSize (size rsize : ℕ) : Type 0 where
  pub room : size + object_header ≤ rsize
  pub tight : rsize < size + object_header + word_size
  pub aligned : rsize % word_size ≡ 0
  pub below : rsize ≤ large_object_size

small_size :
    (size : ℕ)
    → size ≤ large_object_size - object_header
    → IsSmallSize size (round_to_next_multiple (add64 size object_header) word_size)
unfolding round_to_next_multiple add64 sub64
small_size size small = record {
  room = omega arith;
  tight = omega arith;
  aligned = omega arith;
  below = omega arith;
}

-- A request of at most 8176 bytes goes to the loop of the small allocation, with a size that has
-- room for the bytes and the object's header, is less than a word above that, is a multiple of the
-- word size, and is at most 8192, so that the assertion in front of the loop does not fail; a
-- larger request goes to the large allocation. So objects of 8192 bytes, header included, are
-- small.
pub malloc_with_atomic-IsSmallSize :
    (env : Environment) (fuel : ℕ) (s : GlobalAllocator) (local size atomic : ℕ)
    → ((size ≤ large_object_size - object_header)
        × ((rsize : ℕ) × IsSmallSize size rsize
            × (malloc_with_atomic env fuel s local size atomic
                ≡ allocate_small_loop env fuel fuel s local rsize size atomic)))
      ⊎ ((large_object_size - object_header < size)
          × (malloc_with_atomic env fuel s local size atomic
              ≡ allocate_large env fuel s size atomic))
unfolding malloc_with_atomic allocate_small
malloc_with_atomic-IsSmallSize env fuel s local size atomic =
    elim (Bool-cases (leb size (large_object_size - object_header))) [
      | inl small ↦
          let is = small_size size (leb→le size (large_object_size - object_header) small) in
          let rsize = round_to_next_multiple (add64 size object_header) word_size in
          inl (
            leb→le size _ small,
            (rsize, is, rw (small, le→leb rsize large_object_size is.below) refl),
          )
      | inr large ↦ inr (ground arith, rw large refl)
    ]
