-- ===== src/ChunkList/Split.antt =====
-- `ChunkList_insert` and `ChunkList_split` on a laid out list.
use gc.Base.{
  ℕ, ◌+◌, ◌-◌, ◌≤◌, ◌<◌, ◌≡◌, ◌∙◌, refl, inl, inr, true, ◌||◌, [], ◌∷◌, arith, Bool-cases, word_mod,
  ltb, ◌==◌, if◌then◌else◌, add64, sub64, add64-add, sub64-sub, Returns, ==_refl,
}
use gc.Object.{object_header}
use gc.Chunk
use gc.Chunk.{Chunk, Chunks, null, chunk_header_size, chunk_min_size, write, write_self, write_ne}
use gc.ChunkList.{ChunkList, set_next, set_size, insert, split}
use gc.ChunkList.Layout.{
  Cell, Cells, extent, linked, head_at, last_from, Tiles, Tiles-total, Tiles-frame, Rewrites,
  Rewrites-refl, advance,
}

abbrev pub free_cell : ℕ → Cell
free_cell size = record { allocated = 0; object = record { size = size; marked = 0; atomic = 0 } }

abbrev pub resized : Cell → ℕ → Cell
resized c size = record c { object = record (c.object) { size = size } }

-- What a split makes of a chunk and the chunks behind it: it cuts a free chunk off if what is left
-- has room for one.
pub cut : Cell → ℕ → Cells → Cells
cut c size cs =
    if ltb (c.object.size - size) chunk_min_size
    then c ∷ cs
    else resized c size ∷ free_cell (c.object.size - size - chunk_header_size) ∷ cs

pub last_from-ge : (before : ℕ) (c : Cell) (cs : Cells) (p : ℕ) → p ≤ last_from before (c ∷ cs) p
last_from-ge before c [] p = omega arith
last_from-ge before c (d ∷ cs) p = omega (arith, last_from-ge p d cs (p + extent c))

pub cut-split :
    (c : Cell) (size : ℕ) (cs : Cells)
    → size + chunk_min_size ≤ c.object.size
    → cut c size cs ≡ (resized c size ∷ free_cell (c.object.size - size - chunk_header_size) ∷ cs)
unfolding cut
cut-split c size cs h = ground arith

pub cut-whole :
    (c : Cell) (size : ℕ) (cs : Cells)
    → c.object.size < size + chunk_min_size
    → cut c size cs ≡ c ∷ cs
unfolding cut
cut-whole c size cs h = ground arith

-- The memory after a split of the chunk at `p` with `f` for the free chunk.
abbrev cut_chunks : Chunks → ℕ → Cell → ℕ → ℕ → Cells → Chunks
cut_chunks m p c size rest cs =
    let f = p + (chunk_header_size + size) in
    write (write m f (linked (free_cell rest) (head_at cs (p + extent c)))) p
      (linked (resized c size) f)

module _ (s : ChunkList) (p stop : ℕ) (c : Cell) (size : ℕ) (cs : Cells) where
  abbrev rest : ℕ
  rest = c.object.size - size - chunk_header_size

  cut-Rewrites :
      (s' : ChunkList)
      → ((q : ℕ) → s'.chunks q ≡ cut_chunks s.chunks p c size rest cs q)
      → s'.first ≡ s.first
      → s'.last ≡ last_from p (free_cell rest ∷ cs) (p + extent (resized c size))
      → s'.size ≡ s.size + 1
      → object_header ≤ size
      → size + chunk_min_size ≤ c.object.size
      → Tiles s.chunks p (c ∷ cs) stop
      → Rewrites s s' p (c ∷ cs) (resized c size ∷ free_cell rest ∷ cs) stop
  cut-Rewrites s' mem first last len lo hi t =
      let f = p + (chunk_header_size + size) in
      let e : p + extent c ≡ f + (chunk_header_size + rest) = omega arith in
      let m = write s.chunks f (linked (free_cell rest) (head_at cs (p + extent c))) in
      let same : (q : ℕ) → p + extent c ≤ q → s'.chunks q ≡ s.chunks q =
        λ q h. mem q ∙ write_ne m p _ q (omega arith) ∙ write_ne s.chunks f _ q (omega arith) in
      record {
        tiles = (
          mem p ∙ write_self m p _,
          lo,
          (
            mem f ∙ write_ne m p _ f (omega arith) ∙ write_self s.chunks f _ ∙ rw e,
            omega arith,
            rw e at (Tiles-frame s.chunks s'.chunks (p + extent c) cs stop same t.2),
          ),
        );
        last = λ before h. last;
        size = omega (arith, len);
        first = first;
        frame =
            λ q h. mem q ∙ write_ne m p _ q (omega arith) ∙ write_ne s.chunks f _ q (omega arith);
        head = refl;
      }

  -- The header writes of a split, in the code's order, come to the same memory.
  split_chunks :
      (q : ℕ)
      → s.chunks p ≡ linked c (head_at cs (p + extent c))
      → (let f = p + (chunk_header_size + size) in
          let m = write (set_size s.chunks p size) f (Chunk.init rest) in
          set_next (set_next m f ((m p).next)) p f q ≡ cut_chunks s.chunks p c size rest cs q)
  unfolding write set_size set_next Chunk.init
  split_chunks q e = ground arith

-- The assertion on the link of the free chunk.
head_check : (cs : Cells) (x : ℕ) → ((head_at cs x == null) || (x == head_at cs x)) ≡ true
head_check [] x = refl
head_check (c ∷ cs) x = ground arith

-- `ChunkList_insert` of the free chunk behind the split one, last or not.
module _ (s : ChunkList) (p stop : ℕ) (c : Cell) (size : ℕ) where
  insert-Rewrites :
      (cs : Cells)
      → (let f = p + (chunk_header_size + size) in
          let m = write (set_size s.chunks p size) f (Chunk.init (rest s p stop c size cs)) in
          object_header ≤ size
          → size + chunk_min_size ≤ c.object.size
          → s.size + 1 < word_mod
          → Tiles s.chunks p (c ∷ cs) stop
          → s.last ≡ last_from p cs (p + extent c)
          → Rewrites s
              (insert (record s { chunks = m }) f p)
              p
              (c ∷ cs)
              (resized c size ∷ free_cell (rest s p stop c size cs) ∷ cs)
              stop)
  unfolding insert write set_next set_size Chunk.init
  insert-Rewrites [] lo hi small t l =
      cut-Rewrites s p stop c size [] _
        (λ q. ground (arith, l, t.0, split_chunks s p stop c size [] q t.0)) (ground arith)
        (ground (arith, l)) (ground (arith, add64-add s.size 1 small)) lo hi t
  insert-Rewrites (d ∷ cs) lo hi small t l =
      let far = last_from-ge p d cs (p + extent c) in
      cut-Rewrites s p stop c size (d ∷ cs) _
        (λ q. ground (arith, l, far, t.0, split_chunks s p stop c size (d ∷ cs) q t.0))
        (ground arith)
        (let e : p + extent c
              ≡ p + extent (resized c size) + extent (free_cell (rest s p stop c size (d ∷ cs))) =
            omega arith in
          rw (← e) (ground (arith, l, far)))
        (ground (arith, add64-add s.size 1 small)) lo hi t

  -- A split of a chunk in a laid out list, to a size from an object's header up to the chunk's own,
  -- fails no assertion. It makes of the chunk what `cut` says: two chunks if what is left has room
  -- for one, else the same; the chunks behind, the list's first, last and size, and all memory in
  -- front are in order.
  pub split-Rewrites :
      (cs : Cells)
      → stop < word_mod
      → object_header ≤ size
      → size ≤ c.object.size
      → s.size + 1 < word_mod
      → Tiles s.chunks p (c ∷ cs) stop
      → s.last ≡ last_from p cs (p + extent c)
      → Returns (split s p size) λ r. Rewrites s r.0 p (c ∷ cs) (cut c size cs) stop
  unfolding split
  split-Rewrites cs bound lo hi small t l =
      let total = Tiles-total s.chunks (p + extent c) cs stop t.2 in
      let f = p + (chunk_header_size + size) in
      let left : sub64 ((s.chunks p).object.size) size ≡ c.object.size - size =
        rw t.0 (sub64-sub c.object.size size hi (omega arith)) in
      elim (Bool-cases (ltb (c.object.size - size) chunk_min_size)) [
        | inl tight ↦ (
          (s, null),
          rw (left, tight),
          rw (cut-whole c size cs (ground arith)) (Rewrites-refl (c ∷ cs) t),
        )
        | inr roomy ↦
            let big : size + chunk_min_size ≤ c.object.size = ground arith in
            let r = insert-Rewrites cs lo big small t l in
            let m = write (set_size s.chunks p size) f (Chunk.init (rest s p stop c size cs)) in
            let behind : add64 f (c.object.size - size)
                ≡ f + (chunk_header_size + (c.object.size - size - chunk_header_size)) =
              add64-add f (c.object.size - size) (omega arith) ∙ omega arith in
            (
              (insert (record s { chunks = m }) f p, f),
              rw
                  (
                    left,
                    roomy,
                    advance p size (omega arith),
                    sub64-sub (c.object.size - size) chunk_header_size (omega arith) (omega arith),
                    ==_refl f,
                  )
                  (rw (r.tiles.2.0, behind, head_check cs)),
              rw (cut-split c size cs big) r,
            )
      ]
