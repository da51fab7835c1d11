-- ===== src/ChunkList/Push.antt =====
-- `ChunkList_push` of a fresh chunk at the end of a laid out list.
use gc.Base.{
  ℕ, suc, ◌+◌, ◌≤◌, ◌<◌, ◌≡◌, ◌≢◌, ◌∙◌, sym, ap, false, [], ◌∷◌, ◌++◌, arith, length, length-append,
  word_mod, ◌==◌, add64-add,
}
use mathlib.Core.Path.{subst}
use gc.Object.{object_header}
use gc.Chunk
use gc.Chunk.{Chunk, Chunks, null, chunk_header_size, write, write_self, write_ne}
use gc.ChunkList.{ChunkList, set_next, is_empty, push}
use gc.ChunkList.Layout.{
  Cell, Cells, extent, linked, last_from, Tiles, Tiles-total, IsLayout, IsLayout-size-lt,
}
use gc.ChunkList.Split.{free_cell, last_from-ge}

set_next-linked :
    (m : Chunks) (p : ℕ) (c : Cell) (next q : ℕ)
    → m p ≡ linked c next
    → set_next m p q p ≡ linked c q
unfolding set_next write
set_next-linked m p c next q e = ground arith

set_next-ne : (m : Chunks) (p q r : ℕ) → r ≢ p → set_next m p q r ≡ m r
unfolding set_next
set_next-ne m p q r h = write_ne m p _ r h

-- The last chunk is linked to a chunk that stands at the stop.
Tiles-append :
    (m : Chunks) (before p : ℕ) (c : Cell) (cs : Cells) (stop : ℕ) (d : Cell)
    → object_header ≤ d.object.size
    → Tiles m p (c ∷ cs) stop
    → m stop ≡ linked d null
    → Tiles (set_next m (last_from before (c ∷ cs) p) stop) p ((c ∷ cs) ++ d ∷ []) (stop + extent d)
Tiles-append m before p c [] stop d h t e = (
  set_next-linked m p c null stop t.0 ∙ ap (linked c) (sym t.2),
  t.1,
  (
    ap (set_next m p stop) t.2 ∙ set_next-ne m p stop stop (omega (arith, t.2)) ∙ e,
    h,
    omega (arith, t.2),
  ),
)
Tiles-append m before p c (x ∷ cs) stop d h t e =
    let far = last_from-ge p x cs (p + extent c) in
    (
      set_next-ne m (last_from p (x ∷ cs) (p + extent c)) stop p (omega arith) ∙ t.0,
      t.1,
      Tiles-append m p (p + extent c) x cs stop d h t.2 e,
    )

last_from-append :
    (m : Chunks) (before p : ℕ) (cs : Cells) (stop : ℕ) (d : Cell)
    → Tiles m p cs stop
    → stop ≡ last_from before (cs ++ d ∷ []) p
last_from-append m before p [] stop d t = sym t
last_from-append m before p (c ∷ cs) stop d t = last_from-append m p (p + extent c) cs stop d t.2

-- The layout survives every change at or behind its stop.
Tiles-frame_below :
    (m m' : Chunks) (p : ℕ) (cs : Cells) (stop : ℕ)
    → ((q : ℕ) → q < stop → m' q ≡ m q)
    → Tiles m p cs stop
    → Tiles m' p cs stop
Tiles-frame_below m m' p [] stop same t = t
Tiles-frame_below m m' p (c ∷ cs) stop same t = (
  same p (omega (arith, Tiles-total m (p + extent c) cs stop t.2)) ∙ t.0,
  t.1,
  Tiles-frame_below m m' (p + extent c) cs stop same t.2,
)

module _ (m : Chunks) (stop n : ℕ) where
  abbrev fresh : Chunks
  fresh = set_next (write m stop (Chunk.init n)) stop null

  fresh_self : fresh stop ≡ linked (free_cell n) null
  unfolding Chunk.init set_next write
  fresh_self = ground arith

  fresh-ne : (q : ℕ) → q ≢ stop → fresh q ≡ m q
  unfolding Chunk.init set_next write
  fresh-ne q h = ground arith

-- Pushing a fresh chunk of `n` bytes, with room for an object's header, at the stop of a laid out
-- list gives a list that is laid out up to the chunk's end, if that is less than 2 ^ 64.
pub push-IsLayout :
    {s : ChunkList} {cs : Cells} {start stop : ℕ} (n : ℕ)
    → IsLayout s cs start stop
    → object_header ≤ n
    → stop + extent (free_cell n) < word_mod
    → IsLayout
        (push (record s { chunks = write s.chunks stop (Chunk.init n) }) stop)
        (cs ++ free_cell n ∷ [])
        start
        (stop + extent (free_cell n))
unfolding push is_empty
push-IsLayout {s} {cs = []} {start} {stop} n w h room = simp w.first (record {
  positive = w.positive;
  bounded = room;
  tiles = (
    ap (fresh s.chunks stop n) w.tiles ∙ fresh_self s.chunks stop n,
    h,
    ap (λ a. a + extent (free_cell n)) w.tiles,
  );
  first = sym w.tiles;
  last = sym w.tiles;
  size = rw w.size (add64-add 0 1 (omega arith));
})
push-IsLayout {s} {cs = c ∷ cs} {start} {stop} n w h room =
    let busy : (s.first == null) ≡ false = ground (arith, w.first, w.positive) in
    let same : (q : ℕ) → q < stop → fresh s.chunks stop n q ≡ s.chunks q =
      λ q lt. fresh-ne s.chunks stop n q (omega arith) in
    let t = Tiles-frame_below s.chunks (fresh s.chunks stop n) start (c ∷ cs) stop same w.tiles in
    simp busy (record {
      positive = w.positive;
      bounded = room;
      tiles =
          subst
            (λ l.
              Tiles (set_next (fresh s.chunks stop n) l stop) start ((c ∷ cs) ++ free_cell n ∷ [])
                (stop + extent (free_cell n)))
            (sym w.last)
            (Tiles-append (fresh s.chunks stop n) null start c cs stop (free_cell n) h t
              (fresh_self s.chunks stop n));
      first = w.first;
      last = last_from-append s.chunks null start (c ∷ cs) stop (free_cell n) w.tiles;
      size = rw w.size (
          add64-add (suc (length cs)) 1 (omega (arith, IsLayout-size-lt w))
          ∙ sym (length-append (c ∷ cs) (free_cell n ∷ [])));
    })
