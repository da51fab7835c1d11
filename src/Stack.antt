-- ===== src/Stack.antt =====
-- include/stack.h: the collector's mark stack of memory regions. The cursor is an index into the
-- mapped buffer, two cells to a region. The buffer's mapping is taken to be large enough: the code
-- does not check the cursor against it either.
pub mod Regions
use gc.Base.{ℕ, ◌+◌, ◌-◌, ◌*◌, ◌/◌, Bool, true, false, ◌==◌, if◌then◌else◌}

pub record Stack : Type 0 where
  pub buffer : ℕ → ℕ
  pub cursor : ℕ

abbrev pub null : ℕ
null = 0

-- What the mapping holds at first is the parameter `fresh`.
unfoldable pub init : (ℕ → ℕ) → Stack
init fresh = record { buffer = fresh; cursor = 0 }

unfoldable pub size : Stack → ℕ
size self = self.cursor / 2

unfoldable pub is_empty : Stack → Bool
is_empty self = self.cursor == 0

unfoldable pub write : (ℕ → ℕ) → ℕ → ℕ → (ℕ → ℕ)
write f at v i = if i == at then v else f i

unfoldable pub push : Stack → ℕ → ℕ → Stack
unfolding write
push self sp bottom = record {
  buffer = write (write self.buffer self.cursor sp) (self.cursor + 1) bottom;
  cursor = self.cursor + 2;
}

-- The stack left, whether there was a region, and the region's two ends.
unfoldable pub pop : Stack → Stack × Bool × ℕ × ℕ
unfolding is_empty
pop self = if is_empty self then (self, false, null, null) else (
  record self { cursor = self.cursor - 2 },
  true,
  self.buffer (self.cursor - 2),
  self.buffer (self.cursor - 2 + 1),
)
