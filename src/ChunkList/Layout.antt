-- ===== src/ChunkList/Layout.antt =====
-- The abstract view of the large object space: the chunks without their links, in address order,
-- one behind the other from `start` to `stop`.
use gc.Base.{
  ℕ, ◌+◌, ◌*◌, ◌^◌, ◌≤◌, ◌<◌, ◌≡◌, ◌∙◌, refl, ap, List, [], ◌∷◌, arith, length, total, word_mod,
  add64, add64-add,
}
use gc.Object.{Object, object_header}
use gc.Chunk.{Chunk, Chunks, null, chunk_header_size, write, write_ne}
use gc.ChunkList.{ChunkList}

pub record Cell : Type 0 where
  pub allocated : ℕ
  pub object : Object

abbrev pub Cells : Type 0
Cells = List Cell

-- The bytes that a chunk takes, its header included.
abbrev pub extent : Cell → ℕ
extent c = chunk_header_size + c.object.size

abbrev pub linked : Cell → ℕ → Chunk
linked c next = record { next = next; allocated = c.allocated; object = c.object }

-- The address of the first of some chunks that begin at `p`, or NULL.
abbrev pub head_at : Cells → ℕ → ℕ
head_at [] p = null
head_at (c ∷ cs) p = p

-- The address of the last of some chunks that begin at `p`; of none, `before`.
abbrev pub last_from : ℕ → Cells → ℕ → ℕ
last_from before [] p = before
last_from before (c ∷ cs) p = last_from p cs (p + extent c)

-- The chunks `cs` stand in memory from `p` to `stop` with no gap, each linked to the
-- next, and each has room for an object's header.
abbrev pub Tiles : Chunks → ℕ → Cells → ℕ → Type 0
Tiles m p [] stop = p ≡ stop
Tiles m p (c ∷ cs) stop =
    (m p ≡ linked c (head_at cs (p + extent c)))
    × (object_header ≤ c.object.size)
    × Tiles m (p + extent c) cs stop

-- The list and the memory agree on the chunks `cs` between `start` and `stop`.
pub record IsLayout (s : ChunkList) (cs : Cells) (start stop : ℕ) : Type 0 where
  pub positive : 0 < start
  pub bounded : stop < word_mod
  pub tiles : Tiles s.chunks start cs stop
  pub first : s.first ≡ head_at cs start
  pub last : s.last ≡ last_from null cs start
  pub size : s.size ≡ length cs

-- `s'` differs from `s` in that the last chunks `cs`, which stand from `p` on, became `cs'`.
pub record Rewrites (s s' : ChunkList) (p : ℕ) (cs cs' : Cells) (stop : ℕ) : Type 0 where
  pub tiles : Tiles s'.chunks p cs' stop
  pub last : (before : ℕ) → s.last ≡ last_from before cs p → s'.last ≡ last_from before cs' p
  pub size : s'.size + length cs ≡ s.size + length cs'
  pub first : s'.first ≡ s.first
  pub frame : (q : ℕ) → q < p → s'.chunks q ≡ s.chunks q
  pub head : head_at cs p ≡ head_at cs' p

-- The address behind a chunk, as the code computes it.
pub advance :
    (p n : ℕ)
    → p + (chunk_header_size + n) < word_mod
    → add64 (add64 p chunk_header_size) n ≡ p + (chunk_header_size + n)
advance p n h =
    rw
      (
        add64-add p chunk_header_size (omega arith),
        add64-add (p + chunk_header_size) n (omega arith),
      )
      (omega arith)

pub Tiles-total :
    (m : Chunks) (p : ℕ) (cs : Cells) (stop : ℕ) → Tiles m p cs stop → p + total extent cs ≡ stop
Tiles-total m p [] stop t = omega arith
Tiles-total m p (c ∷ cs) stop t = omega (arith, Tiles-total m (p + extent c) cs stop t.2)

pub length-le-total : (cs : Cells) → 16 * length cs ≤ total extent cs
length-le-total [] = omega arith
length-le-total (c ∷ cs) = omega (arith, length-le-total cs)

-- The layout survives every change below `p`, where none of its chunks stands.
pub Tiles-frame :
    (m m' : Chunks) (p : ℕ) (cs : Cells) (stop : ℕ)
    → ((q : ℕ) → p ≤ q → m' q ≡ m q)
    → Tiles m p cs stop
    → Tiles m' p cs stop
Tiles-frame m m' p [] stop same t = t
Tiles-frame m m' p (c ∷ cs) stop same t = (
  same p (omega arith) ∙ t.0,
  t.1,
  Tiles-frame m m' (p + extent c) cs stop (λ q h. same q (omega arith)) t.2,
)

pub Tiles-write :
    (m : Chunks) (at : ℕ) (c : Chunk) (p : ℕ) (cs : Cells) (stop : ℕ)
    → at < p
    → Tiles m p cs stop
    → Tiles (write m at c) p cs stop
Tiles-write m at c p cs stop h =
    Tiles-frame m (write m at c) p cs stop (λ q k. write_ne m at c q (omega arith))

pub IsLayout-size-lt :
    {s : ChunkList} {cs : Cells} {start stop : ℕ} → IsLayout s cs start stop → length cs < 2 ^ 60
IsLayout-size-lt {s} {cs} {start} {stop} w =
    omega (arith, Tiles-total s.chunks start cs stop w.tiles, length-le-total cs, w.bounded)

module _ {s s' : ChunkList} {p stop : ℕ} where
  -- A rewriting of the tail is one of the whole: the chunk in front keeps its link.
  pub Rewrites-cons :
      (c : Cell) (cs cs' : Cells)
      → Tiles s.chunks p (c ∷ cs) stop
      → Rewrites s s' (p + extent c) cs cs' stop
      → Rewrites s s' p (c ∷ cs) (c ∷ cs') stop
  Rewrites-cons c cs cs' t r = record {
    tiles = (r.frame p (omega arith) ∙ t.0 ∙ ap (linked c) r.head, t.1, r.tiles);
    last = λ before h. r.last p h;
    size = omega (arith, r.size);
    first = r.first;
    frame = λ q h. r.frame q (omega arith);
    head = refl;
  }

  -- At the list's own first chunk it turns one layout into another.
  pub Rewrites-IsLayout :
      (cs cs' : Cells) → IsLayout s cs p stop → Rewrites s s' p cs cs' stop → IsLayout s' cs' p stop
  Rewrites-IsLayout cs cs' w r = record {
    positive = w.positive;
    bounded = w.bounded;
    tiles = r.tiles;
    first = r.first ∙ w.first ∙ r.head;
    last = r.last null w.last;
    size = omega (arith, r.size, w.size);
  }

pub Rewrites-refl :
    {s : ChunkList} {p stop : ℕ} (cs : Cells) → Tiles s.chunks p cs stop → Rewrites s s p cs cs stop
Rewrites-refl cs t = record {
  tiles = t;
  last = λ before h. h;
  size = refl;
  first = refl;
  frame = λ q h. refl;
  head = refl;
}

pub Rewrites-trans :
    {s s' s'' : ChunkList} {p stop : ℕ} {cs cs' cs'' : Cells}
    → Rewrites s s' p cs cs' stop
    → Rewrites s' s'' p cs' cs'' stop
    → Rewrites s s'' p cs cs'' stop
Rewrites-trans r r' = record {
  tiles = r'.tiles;
  last = λ before h. r'.last before (r.last before h);
  size = omega (arith, r.size, r'.size);
  first = r'.first ∙ r.first;
  frame = λ q h. r'.frame q h ∙ r.frame q h;
  head = r.head ∙ r'.head;
}
