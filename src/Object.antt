-- ===== src/Object.antt =====
-- include/object.h: the header that stands in front of every object, and its operations. An
-- address is a number; the operations that only read or write fields take and return the header.
use gc.Base.{ℕ, ◌%◌, ◌^◌, Bool, ◌&&◌, leb, ltb, ◌==◌, add64, sub64}

pub record Object : Type 0 where
  pub size : ℕ
  pub marked : ℕ
  pub atomic : ℕ

-- `sizeof(Object)`: a `size_t` and two bytes, padded to eight.
abbrev pub object_header : ℕ
object_header = 16

-- A `uint8_t` field keeps the low byte of what is stored.
abbrev pub byte : ℕ → ℕ
byte n = n % 2 ^ 8

unfoldable pub allocate : Object → ℕ → ℕ → Object
allocate object size atomic = record object { size = size; atomic = byte atomic }

unfoldable pub mutator_address : ℕ → ℕ
mutator_address object = add64 object object_header

unfoldable pub mutator_size : Object → ℕ
mutator_size object = sub64 object.size object_header

unfoldable pub is_marked : Object → Bool
is_marked object = object.marked == 1

unfoldable pub mark : Object → Object
mark object = record object { marked = 1 }

unfoldable pub unmark : Object → Object
unmark object = record object { marked = 0 }

-- Whether the pointer lies in the mutator's part of the object at `address`.
unfoldable pub contains : ℕ → Object → ℕ → Bool
unfolding mutator_address
contains address object pointer =
    leb (mutator_address address) pointer && ltb pointer (add64 address object.size)
