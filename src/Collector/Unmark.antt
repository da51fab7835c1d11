-- ===== src/Collector/Unmark.antt =====
-- The unmarking of the large object space in src/collector.c, against its effect on the chunks in order.
use gc.Base.{
  ℕ, zero, suc, ◌+◌, ◌<◌, ◌≡◌, refl, ap, ◌∙◌, [], ◌∷◌, map, arith, length, word_mod, Returns, ==_lt,
}
use gc.Object
use gc.Chunk
use gc.Chunk.{Chunks, write, write_self, write_ne}
use gc.ChunkList.{ChunkList}
use gc.ChunkList.Layout.{
  Cell, Cells, extent, head_at, Tiles, Tiles-write, IsLayout, Rewrites, Rewrites-refl,
  Rewrites-cons, Rewrites-trans, Rewrites-IsLayout,
}
use gc.Collector.{unmark_loop, unmark_large_objects}
use gc.Collector.State.{Collector}

abbrev pub unmarked : Cell → Cell
unmarked c = record c { object = Object.unmark (c.object) }

abbrev pub with_list : Collector → ChunkList → Collector
with_list self list = record self {
  global_allocator = record (self.global_allocator) { large_chunk_list = list };
}

abbrev pub unmarked_at : ChunkList → ℕ → ChunkList
unmarked_at s p = record s { chunks = write s.chunks p (Chunk.unmark (s.chunks p)) }

pub head_at-map : (cs : Cells) (p : ℕ) → head_at (map unmarked cs) p ≡ head_at cs p
head_at-map [] p = refl
head_at-map (c ∷ cs) p = refl

Rewrites-unmark :
    (s : ChunkList) (p : ℕ) (c : Cell) (cs : Cells) (stop : ℕ)
    → Tiles s.chunks p (c ∷ cs) stop
    → Rewrites s (unmarked_at s p) p (c ∷ cs) (unmarked c ∷ cs) stop
unfolding Chunk.unmark Object.unmark
Rewrites-unmark s p c cs stop t = record {
  tiles = (
    write_self s.chunks p _ ∙ rw (t.0) refl,
    t.1,
    Tiles-write s.chunks p _ (p + extent c) cs stop (omega arith) t.2,
  );
  last = λ before h. h;
  size = refl;
  first = refl;
  frame = λ q h. write_ne s.chunks p _ q (omega arith);
  head = refl;
}

next_unmarked :
    (m : Chunks) (p : ℕ) {n : ℕ} → (m p).next ≡ n → (write m p (Chunk.unmark (m p)) p).next ≡ n
unfolding Chunk.unmark
next_unmarked m p e = ap (λ c. c.next) (write_self m p _) ∙ e

unmark_loop-map :
    (fuel : ℕ) (c : Collector) (p : ℕ) (cs : Cells) (stop : ℕ)
    → 0 < p
    → stop < word_mod
    → Tiles c.global_allocator.large_chunk_list.chunks p cs stop
    → length cs < fuel
    → Returns (unmark_loop fuel c (head_at cs p)) λ c'.
      Rewrites c.global_allocator.large_chunk_list c'.global_allocator.large_chunk_list p cs
        (map unmarked cs)
        stop
      × (c' ≡ with_list c c'.global_allocator.large_chunk_list)
unfolding unmark_loop Object.unmark
unmark_loop-map zero c p cs stop pos bound t enough = absurd (omega arith)
unmark_loop-map (suc fuel) c p [] stop pos bound t enough = (c, refl, (Rewrites-refl [] t, refl))
unmark_loop-map (suc fuel) c p (d ∷ cs) stop pos bound t enough =
    let list = c.global_allocator.large_chunk_list in
    let first = Rewrites-unmark list p d cs stop t in
    let (c', run, (r, e)) =
      unmark_loop-map fuel (with_list c (unmarked_at list p)) (p + extent d) cs stop (omega arith)
        bound first.tiles.2 (omega arith) in
    (
      c',
      rw (==_lt p 0 pos, next_unmarked list.chunks p (ap (λ x. x.next) t.0)) run,
      (Rewrites-trans first (Rewrites-cons (unmarked d) cs (map unmarked cs) first.tiles r), e),
    )

-- On a laid out large space the unmarking ends, with fuel for one step more than there are chunks.
-- It leaves the same chunks, each without its mark, laid out as they were, and nothing else of the
-- state has changed.
pub unmark_large_objects-map :
    (fuel : ℕ) (c : Collector) (cs : Cells) (start stop : ℕ)
    → IsLayout c.global_allocator.large_chunk_list cs start stop
    → length cs < fuel
    → Returns (unmark_large_objects fuel c) λ c'.
      IsLayout c'.global_allocator.large_chunk_list (map unmarked cs) start stop
      × (c' ≡ with_list c c'.global_allocator.large_chunk_list)
unfolding unmark_large_objects
unmark_large_objects-map fuel c cs start stop w enough =
    let (c', run, (r, e)) =
      unmark_loop-map fuel c start cs stop w.positive w.bounded w.tiles enough in
    (c', simp w.first run, (Rewrites-IsLayout cs (map unmarked cs) w r, e))
