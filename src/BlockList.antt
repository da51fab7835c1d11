-- ===== src/BlockList.antt =====
-- include/block_list.h: the linked lists of blocks. The list's own fields stand beside the memory
-- that holds the block headers.
pub mod Queue
use gc.Base.{ℕ, ◌+◌, Bool, ◌==◌, if◌then◌else◌, add64, sub64}
use gc.Block.{Blocks, write}

abbrev pub null : ℕ
null = 0

pub record BlockList : Type 0 where
  pub first : ℕ
  pub last : ℕ
  pub size : ℕ

unfoldable pub clear : BlockList → BlockList
clear self = record { first = null; last = null; size = 0 }

unfoldable pub is_empty : BlockList → Bool
is_empty self = self.first == null

-- `p->next = q`.
unfoldable pub set_next : Blocks → ℕ → ℕ → Blocks
unfolding write
set_next m p q = write m p (record (m p) { next = q })

unfoldable pub push : Blocks → BlockList → ℕ → Blocks × BlockList
unfolding is_empty
push m self block =
    let m' = set_next m block null in
    if is_empty self
    then (m', record { first = block; last = block; size = add64 self.size 1 })
    else (set_next m' self.last block, record self { last = block; size = add64 self.size 1 })

-- The second component is the block that was first, or NULL. The list's last pointer stays.
unfoldable pub shift : Blocks → BlockList → BlockList × ℕ
shift m self =
    if self.first == null
    then (self, null)
    else (record self { first = (m self.first).next; size = sub64 self.size 1 }, self.first)
