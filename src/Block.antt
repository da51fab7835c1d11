-- ===== src/Block.antt =====
-- include/block.h and include/constants.h: a block of the small object space and its addresses.
-- A block starts with a line that holds its metadata; 127 lines for objects follow. `Blocks` is the
-- memory seen as block headers, by address.

pub mod Address
pub mod LineUpdate
use gc.Base.{
  pos, ℕ, ◌+◌, ◌-◌, ◌*◌, ◌/◌, ◌%◌, ◌^◌, Bool, true, false, not, ◌&&◌, Option, none, some, ltb, leb,
  ◌==◌, if◌then◌else◌, add64, Run, ok, ◌>>=◌, ◌>>◌, assert,
}
use gc.LineHeader
use gc.LineHeader.{line_size}

abbrev pub block_size : ℕ
block_size = 32768

abbrev pub line_count : ℕ
line_count = 127

pub data BlockFlag : Type 0 where
  free recyclable unavailable : BlockFlag

-- `line_headers` gives the header byte at each line index.
pub record Block : Type 0 where
  pub marked : ℕ
  pub flag : BlockFlag
  pub first_free_line_index : ℕ
  pub next : ℕ
  pub line_headers : ℕ → ℕ

abbrev pub Blocks : Type 0
Blocks = ℕ → Block

unfoldable pub write : Blocks → ℕ → Block → Blocks
write m p b q = if q == p then b else m q

-- `memset` to zero, the line headers included.
unfoldable pub init : Block
init = record {
  marked = 0;
  flag = free;
  first_free_line_index = 0;
  next = 0;
  line_headers = λ i. 0;
}

-- `pointer & ~(BLOCK_SIZE - 1)`: the low 15 bits are cleared.
unfoldable pub from : ℕ → ℕ
from pointer = pointer / block_size * block_size

unfoldable pub set_flag : Block → BlockFlag → Block
set_flag self flag = record self { flag = flag }

unfoldable pub is_free : Block → Bool
is_free self = elim (self.flag) [ free ↦ true | _ ↦ false ]

unfoldable pub is_recyclable : Block → Bool
is_recyclable self = elim (self.flag) [ recyclable ↦ true | _ ↦ false ]

unfoldable pub is_unavailable : Block → Bool
is_unavailable self = elim (self.flag) [ unavailable ↦ true | _ ↦ false ]

unfoldable pub set_free : Block → Block
set_free self = init

unfoldable pub set_recyclable : Block → ℕ → Block
set_recyclable self first_free_line_index = record self {
  flag = recyclable;
  first_free_line_index = first_free_line_index;
}

unfoldable pub set_unavailable : Block → Block
set_unavailable self = record self { flag = unavailable }

unfoldable pub mark : Block → Block
mark self = record self { marked = 1 }

unfoldable pub unmark : Block → Block
unmark self = record self { marked = 0 }

unfoldable pub is_marked : Block → Bool
is_marked self = self.marked == 1

-- The addresses below take the block's own address.
unfoldable pub start : ℕ → ℕ
start block = add64 block line_size

unfoldable pub stop : ℕ → ℕ
stop block = add64 block block_size

unfoldable pub contains : ℕ → ℕ → Bool
contains block pointer = leb (start block) pointer && ltb pointer (stop block)

unfoldable pub first_free_line : ℕ → Block → Run ℕ
first_free_line block self =
    assert (ltb self.first_free_line_index line_count)
    >> ok (add64 (start block) (line_size * self.first_free_line_index))

-- The header byte of a line. (The code returns a pointer to it.)
unfoldable pub line_header : Block → ℕ → Run ℕ
line_header self line_index =
    assert (ltb line_index line_count) >> ok (self.line_headers line_index)

unfoldable pub set_line_header : Block → ℕ → ℕ → Block
set_line_header self line_index flag = record self {
  line_headers = λ i. if i == line_index then flag else self.line_headers i;
}

-- `none` is INVALID_LINE_INDEX: the pointer is in front of the first line.
unfoldable pub line_index : ℕ → ℕ → Run (Option ℕ)
line_index block pointer =
    assert (leb pointer (stop block))
    >> ok (if ltb pointer (start block) then none else some ((pointer - start block) / line_size))

unfoldable pub line : ℕ → ℕ → Run ℕ
line block line_index =
    assert (ltb line_index line_count) >> ok (add64 (start block) (line_index * line_size))

-- The body of `Line_update` once the line is known: the offset is recorded only for the first object
-- of a line.
unfoldable pub record_offset : ℕ → Block → ℕ → ℕ → Run Block
record_offset block self object index = do
  header ← line_header self index
  at ← line block index
  let update = do
    assert (leb at object)
    assert (ltb (object - at) line_size)
    flag ← LineHeader.set_offset header (pos (object - at))
    ok (set_line_header self index flag)
  if LineHeader.contains_object header then ok self else update

unfoldable pub line_update : ℕ → Block → ℕ → Run Block
line_update block self object = do
  assert (contains block object)
  index ← line_index block object
  elim index [ none ↦ assert false >> ok self | some i ↦ record_offset block self object i ]
