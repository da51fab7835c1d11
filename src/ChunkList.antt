-- ===== src/ChunkList.antt =====
-- include/chunk_list.h, lines 72 to 266: the linked list of chunks that makes up the large object
-- space. The list's own fields stand beside the memory that holds the chunks.
pub mod Layout
pub mod Push
pub mod Sweep
pub mod Split
pub mod Find
pub mod Validate
use gc.Base.{
  ℕ, zero, suc, Bool, ◌&&◌, ◌||◌, not, ltb, ◌==◌, if◌then◌else◌, add64, sub64, Run, ok, out_of_fuel,
  ◌>>=◌, ◌>>◌, assert,
}
use gc.Chunk
use gc.Chunk.{Chunk, Chunks, null, chunk_header_size, chunk_min_size, write}

pub record ChunkList : Type 0 where
  pub chunks : Chunks
  pub first : ℕ
  pub last : ℕ
  pub size : ℕ

unfoldable pub clear : ChunkList → ChunkList
clear self = record self { first = null; last = null; size = 0 }

unfoldable pub is_empty : ChunkList → Bool
is_empty self = self.first == null

-- `p->next = q`.
unfoldable pub set_next : Chunks → ℕ → ℕ → Chunks
unfolding write
set_next m p q = write m p (record (m p) { next = q })

unfoldable pub push : ChunkList → ℕ → ChunkList
push self chunk =
    let m = set_next self.chunks chunk null in
    if is_empty self
    then record self { chunks = m; first = chunk; last = chunk; size = add64 self.size 1 }
    else record self { chunks = set_next m self.last chunk; last = chunk; size = add64 self.size 1 }

unfoldable pub insert : ChunkList → ℕ → ℕ → ChunkList
insert self chunk after =
    let m = self.chunks in
    if after == self.last
    then record self {
      chunks = set_next (set_next m chunk null) self.last chunk;
      last = chunk;
      size = add64 self.size 1;
    }
    else record self {
      chunks = set_next (set_next m chunk ((m after).next)) after chunk;
      size = add64 self.size 1;
    }

-- `chunk->object.size = size`.
unfoldable pub set_size : Chunks → ℕ → ℕ → Chunks
unfolding write
set_size m p size =
    let c = m p in write m p (record c { object = record (c.object) { size = size } })

-- The second component is the free chunk that is cut off, or NULL. The assertions at the end of the
-- function read the memory that it has written.
unfoldable pub split : ChunkList → ℕ → ℕ → Run (ChunkList × ℕ)
split self chunk size =
    let remaining = sub64 ((self.chunks chunk).object.size) size in
    if ltb remaining chunk_min_size
    then ok (self, null)
    else let free_chunk = add64 (add64 chunk chunk_header_size) size in
      let m =
        write (set_size self.chunks chunk size) free_chunk
          (Chunk.init (sub64 remaining chunk_header_size)) in
      let list = insert (record self { chunks = m }) free_chunk chunk in
      let next = (list.chunks free_chunk).next in
      assert (add64 (add64 chunk chunk_header_size) size == free_chunk)
      >> assert ((next == null) || (add64 free_chunk remaining == next))
      >> ok (list, free_chunk)

unfoldable pub find_loop : ℕ → Chunks → ℕ → ℕ → Run ℕ
find_loop zero m chunk pointer = out_of_fuel
find_loop (suc fuel) m chunk pointer =
    let rest = find_loop fuel m ((m chunk).next) pointer in
    if chunk == null
    then ok null
    else (if Chunk.contains chunk (m chunk) pointer then ok chunk else rest)

-- The chunk that contains the pointer, or NULL.
unfoldable pub find : ℕ → ChunkList → ℕ → Run ℕ
find fuel self pointer = find_loop fuel self.chunks self.first pointer

unfoldable pub limit : ChunkList → ℕ
limit self =
    if self.last == null then null else add64 self.last (Chunk.chunk_size (self.chunks self.last))

unfoldable pub merge : ChunkList → ℕ → ℕ → ℕ → Run ChunkList
merge self chunk stop_chunk count =
    let stop = if stop_chunk == null then limit self else stop_chunk in
    let size = sub64 (sub64 stop chunk) chunk_header_size in
    assert (ltb ((self.chunks chunk).object.size) size)
    >> ok (record self {
      chunks = set_size (set_next self.chunks chunk stop_chunk) chunk size;
      last = if stop_chunk == null then chunk else self.last;
      size = sub64 self.size count;
    })

-- The inner loop of the sweep: from `chunk` to the next marked chunk or NULL, with the number of
-- chunks passed.
unfoldable pub skip_unmarked : ℕ → Chunks → ℕ → ℕ → Run (ℕ × ℕ)
skip_unmarked zero m chunk count = out_of_fuel
skip_unmarked (suc fuel) m chunk count =
    let rest = skip_unmarked fuel m ((m chunk).next) (add64 count 1) in
    if not (chunk == null) && not (Chunk.is_marked (m chunk)) then rest else ok (chunk, count)

-- `chunk->allocated = 0`.
unfoldable pub set_free : Chunks → ℕ → Chunks
unfolding write
set_free m p = write m p (record (m p) { allocated = 0 })

-- The else branch of the sweep's body: frees an unmarked chunk and the unmarked ones behind it.
unfoldable pub free_run : ℕ → ChunkList → ℕ → Run (ChunkList × ℕ)
free_run fuel self chunk =
    let freed = record self { chunks = set_free self.chunks chunk } in
    let next = (freed.chunks chunk).next in
    skip_unmarked fuel freed.chunks next 0 >>= λ r.
    (if r.0 == next then ok freed else merge freed chunk r.0 r.1) >>= λ list. ok (list, r.0)

unfoldable pub sweep_loop : ℕ → ChunkList → ℕ → Run ChunkList
sweep_loop zero self chunk = out_of_fuel
sweep_loop (suc fuel) self chunk =
    let keep = sweep_loop fuel self ((self.chunks chunk).next) in
    let drop = free_run fuel self chunk >>= λ r. sweep_loop fuel r.0 r.1 in
    if chunk == null then ok self else (if Chunk.is_marked (self.chunks chunk) then keep else drop)

-- Frees every unmarked chunk, and merges each run of them into its first.
unfoldable pub sweep : ℕ → ChunkList → Run ChunkList
sweep fuel self = sweep_loop fuel self self.first

unfoldable pub validate_loop : ℕ → ChunkList → ℕ → ℕ → ℕ → Run (Unit {0})
validate_loop zero self heap_stop chunk count = out_of_fuel
validate_loop (suc fuel) self heap_stop chunk count =
    let c = self.chunks chunk in
    let actual = add64 (add64 chunk chunk_header_size) c.object.size in
    let rest = validate_loop fuel self heap_stop c.next (add64 count 1) in
    let at_end =
      assert (actual == heap_stop)
      >> assert (chunk == self.last)
      >> assert (add64 count 1 == self.size) in
    if chunk == null
    then ok tt
    else (if c.next == null then at_end else assert (actual == c.next) >> rest)

-- The debugging check of the whole list: aborts unless the chunks stand one behind the other.
unfoldable pub validate : ℕ → ChunkList → ℕ → Run (Unit {0})
validate fuel self heap_stop = validate_loop fuel self heap_stop self.first 0
