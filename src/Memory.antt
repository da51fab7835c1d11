-- ===== src/Memory.antt =====
-- What the code keeps in memory outside its lists: the holes of include/line_header.h, and the local
-- allocators of include/local_allocator.h.
use gc.Base.{ℕ}

-- The first bytes of a hole: where it ends, and the next hole of the block. They have a map of their
-- own, apart from the headers of the objects that may have stood there.
pub record Hole : Type 0 where
  pub limit : ℕ
  pub next : ℕ

unfoldable pub init_hole : Hole
init_hole = record { limit = 0; next = 0 }

-- There is one global allocator, so that the pointer to it is left out.
pub record LocalAllocator : Type 0 where
  pub block : ℕ
  pub cursor : ℕ
  pub limit : ℕ
  pub next : ℕ
  pub overflow_block : ℕ
  pub overflow_cursor : ℕ
  pub overflow_limit : ℕ
