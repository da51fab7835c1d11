-- ===== src/Chunk.antt =====
-- include/chunk_list.h, lines 10 to 69: one chunk of the large object space. `Chunks` is the memory
-- seen as chunk headers, by address; a write changes one address.
use gc.Base.{
  ℕ, ◌+◌, ◌-◌, ◌*◌, ◌%◌, ◌^◌, ◌<◌, ◌≡◌, ◌≢◌, Bool, ◌&&◌, arith, leb, ltb, ◌==◌, if◌then◌else◌, not,
  add64, word_mod,
}
use gc.Object
use gc.Object.{Object}

pub record Chunk : Type 0 where
  pub next : ℕ
  pub allocated : ℕ
  pub object : Object

abbrev pub null : ℕ
null = 0

-- `sizeof(Chunk)`, `CHUNK_HEADER_SIZE` and `CHUNK_MIN_SIZE`.
abbrev pub sizeof_chunk : ℕ
sizeof_chunk = 32

abbrev pub chunk_header_size : ℕ
chunk_header_size = sizeof_chunk - Object.object_header

abbrev pub chunk_min_size : ℕ
chunk_min_size = sizeof_chunk * 2

abbrev pub Chunks : Type 0
Chunks = ℕ → Chunk

unfoldable pub write : Chunks → ℕ → Chunk → Chunks
write m p c q = if q == p then c else m q

-- `Chunk_init` writes every field.
unfoldable pub init : ℕ → Chunk
init size = record {
  next = null;
  allocated = 0;
  object = record { size = size; marked = 0; atomic = 0 };
}

unfoldable pub allocate : Chunk → ℕ → Chunk
allocate self atomic = record self {
  allocated = 1;
  object = record (self.object) { atomic = Object.byte atomic };
}

unfoldable pub is_allocated : Chunk → Bool
is_allocated self = not (self.allocated == 0)

-- The function returns an `int`: the size is cut to 32 bits, and the sign is spread over the upper
-- half when the result is added to a pointer. This is that 64-bit word.
unfoldable pub chunk_size : Chunk → ℕ
chunk_size chunk =
    let low = add64 chunk.object.size chunk_header_size % 2 ^ 32 in
    if ltb low (2 ^ 31) then low else low + (word_mod - 2 ^ 32)

unfoldable pub mark : Chunk → Chunk
mark chunk = record chunk { object = record (chunk.object) { marked = 1 } }

unfoldable pub unmark : Chunk → Chunk
unmark chunk = record chunk { object = record (chunk.object) { marked = 0 } }

unfoldable pub is_marked : Chunk → Bool
is_marked chunk = chunk.object.marked == 1

unfoldable pub mutator_address : ℕ → ℕ
mutator_address chunk = add64 chunk sizeof_chunk

-- Whether the pointer lies in the mutator's part of the chunk at `address`.
unfoldable pub contains : ℕ → Chunk → ℕ → Bool
unfolding mutator_address
contains address chunk pointer =
    leb (mutator_address address) pointer
    && ltb pointer (add64 (add64 address chunk_header_size) chunk.object.size)

pub write_self : (m : Chunks) (p : ℕ) (c : Chunk) → write m p c p ≡ c
unfolding write
write_self m p c = ground arith

pub write_ne : (m : Chunks) (p : ℕ) (c : Chunk) (q : ℕ) → q ≢ p → write m p c q ≡ m q
unfolding write
write_ne m p c q h = ground arith

-- Sizes that an `int` holds are returned as they are.
pub chunk_size-small :
    (c : Chunk)
    → c.object.size + chunk_header_size < 2 ^ 31
    → chunk_size c ≡ c.object.size + chunk_header_size
unfolding chunk_size add64
chunk_size-small c h = ground arith
