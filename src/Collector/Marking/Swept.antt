-- ===== src/Collector/Marking/Swept.antt =====
-- The sweep of the large object space behind a marking: what a collection leaves in it.
use gc.Base.{ℕ, ◌^◌, ◌<◌, ◌≡◌, ◌≢◌, refl, sym, ap, ◌∙◌, inl, inr, true, ◌↔◌, arith, Returns, ◌==◌}
use gc.Object
use gc.Chunk.{null, Chunks}
use gc.ChunkList
use gc.ChunkList.{ChunkList}
use gc.ChunkList.Layout.{Cell, Cells, IsLayout}
use gc.ChunkList.Find.{StandsAt}
use gc.ChunkList.Sweep.{last_extent, marked}
use gc.ChunkList.Sweep.Collected.{sweep-Collected}
use gc.GlobalAllocator.{GlobalAllocator}
use gc.Collector.Marking.Large.{
  now, marked_in-at, StandsAt-now, now-StandsAt, last_from-now, last_extent-now, length-now,
  head_at-now, Shaped-Tiles,
}
use gc.Collector.Marking.LargeSpace.{Space, IsLarge, is_marked}

-- Of the chunks `cs` from `p` on, `cs'` keeps those whose object is live, and no other is in use.
pub record Reclaimed (IsLive : ℕ → Type 0) (p : ℕ) (cs cs' : Cells) : Type 0 where
  pub kept :
      (q : ℕ) (c : Cell)
      → StandsAt q c p cs
      → IsLive q
      → (d : Cell) × StandsAt q d p cs'
        × (d.allocated ≡ c.allocated)
        × (d.object.size ≡ c.object.size)
        × (d.object.atomic ≡ c.object.atomic)
  pub only : (q : ℕ) (d : Cell) → StandsAt q d p cs' → d.allocated ≢ 0 → IsLive q

is_marked-one :
    (m : Chunks) (q : ℕ) → Object.is_marked (m q).object ≡ true → ((m q).object.marked == 1) ≡ true
unfolding Object.is_marked
is_marked-one m q set = set

set_mark :
    (m : Chunks) (q : ℕ) (d : Cell)
    → marked d ≡ true
    → d.object.marked ≡ (m q).object.marked
    → Object.is_marked (m q).object ≡ true
unfolding Object.is_marked
set_mark m q d set same = ap (λ x. x == 1) (sym same) ∙ set

module _ {fuel : ℕ} (space : Space fuel) where
  IsLarge-IsLayout :
      (heap : GlobalAllocator)
      → IsLarge space heap
      → IsLayout heap.large_chunk_list
          (now heap.large_chunk_list.chunks space.start space.chunks)
          space.start
          space.stop
  IsLarge-IsLayout heap w =
      let m = heap.large_chunk_list.chunks in
      record {
        positive = space.positive;
        bounded = omega arith;
        tiles = Shaped-Tiles m space.start space.chunks space.stop w.shaped;
        first = w.first ∙ sym (head_at-now m space.chunks space.start space.start);
        last = w.last ∙ sym (last_from-now m null space.start space.chunks);
        size = w.size ∙ sym (length-now m space.start space.chunks);
      }

  -- What the sweep of the chunks leaves, if the marked chunks are the live ones.
  pub sweep-Reclaimed :
      (IsLive : ℕ → Type 0) (heap : GlobalAllocator)
      → last_extent 0 space.chunks < 2 ^ 31
      → IsLarge space heap
      → ((q : ℕ) (d : Cell)
          → StandsAt q d space.start space.chunks
          → (is_marked space heap q ≡ true) ↔ IsLive q)
      → Returns (ChunkList.sweep fuel heap.large_chunk_list) λ s'.
        (cs' : Cells) × IsLayout s' cs' space.start space.stop
        × Reclaimed IsLive space.start space.chunks cs'
  sweep-Reclaimed IsLive heap int_size w iff =
      let m = heap.large_chunk_list.chunks in
      let (s', run, (cs', layout, collected)) =
        sweep-Collected fuel (IsLarge-IsLayout heap w)
          (rw (last_extent-now m 0 space.start space.chunks) int_size)
          (rw (length-now m space.start space.chunks) space.enough) in
      (
        s',
        run,
        (
          cs',
          layout,
          record {
            kept = λ q d at live.
                let set : Object.is_marked (m q).object ≡ true =
                  sym (marked_in-at m q d space.start space.chunks at) ∙ (iff q d at).1 live in
                let is : marked
                      (record d { object = record (d.object) { marked = (m q).object.marked } })
                    ≡ true =
                  is_marked-one m q set in
                (
                  _,
                  collected.kept q _ (StandsAt-now m q d space.start space.chunks at) is,
                  refl,
                  refl,
                  refl,
                );
            only = λ q d at used. elim (collected.only q d at) [
              | inl (set, at') ↦
                  let (e, found_at, same_extent, same_mark) =
                    now-StandsAt m q d space.start space.chunks at' in
                  (iff q e found_at).0 (
                    marked_in-at m q e space.start space.chunks found_at
                    ∙ set_mark m q d set same_mark)
              | inr unused ↦ absurd (used unused)
            ];
          },
        ),
      )
