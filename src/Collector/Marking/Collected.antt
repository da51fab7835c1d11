-- ===== src/Collector/Marking/Collected.antt =====
-- The large object space once its chunks are unmarked.
use gc.Base.{
  ℕ, ◌+◌, ◌≡◌, refl, ap, ◌∙◌, inl, inr, false, [], ◌∷◌, map, arith, length, Bool-cases, ◌==◌,
}
use gc.Object
use gc.Chunk.{Chunks, null}
use gc.ChunkList.{ChunkList}
use gc.ChunkList.Layout.{Cells, extent, last_from, Tiles, IsLayout}
use gc.GlobalAllocator.{GlobalAllocator}
use gc.Collector.State.{Collector}
use gc.Collector.Unmark.{unmarked, with_list, head_at-map}
use gc.Collector.Marking.Large.{Shaped, marked_in}
use gc.Collector.Marking.LargeSpace.{Space, IsLarge}

length-unmarked : (cs : Cells) → length (map unmarked cs) ≡ length cs
length-unmarked [] = refl
length-unmarked (c ∷ cs) = omega (arith, length-unmarked cs)

last_from-unmarked :
    (before p : ℕ) (cs : Cells) → last_from before (map unmarked cs) p ≡ last_from before cs p
unfolding Object.unmark
last_from-unmarked before p [] = refl
last_from-unmarked before p (c ∷ cs) = last_from-unmarked p (p + extent c) cs

Tiles-Shaped :
    (m : Chunks) (p : ℕ) (cs : Cells) (stop : ℕ)
    → Tiles m p (map unmarked cs) stop
    → Shaped m p cs stop
unfolding Object.unmark
Tiles-Shaped m p [] stop e = e
Tiles-Shaped m p (c ∷ cs) stop (e, room, rest) = (
  ap (λ x. x.next) e ∙ head_at-map cs (p + extent c),
  ap (λ x. x.allocated) e,
  ap (λ x. x.object.size) e,
  ap (λ x. x.object.atomic) e,
  room,
  Tiles-Shaped m (p + extent c) cs stop rest,
)

pub Tiles-blank :
    (m : Chunks) (p : ℕ) (cs : Cells) (stop q : ℕ)
    → Tiles m p (map unmarked cs) stop
    → marked_in m q p cs ≡ false
unfolding Object.unmark Object.is_marked
Tiles-blank m p [] stop q e = refl
Tiles-blank m p (c ∷ cs) stop q (e, room, rest) = elim (Bool-cases (p == q)) [
  | inl same ↦ rw same (ap (λ x. x.object.marked == 1) e)
  | inr other ↦ rw other (Tiles-blank m (p + extent c) cs stop q rest)
]

-- The heap has the space's chunks, and its two spaces where they should lie.
pub record IsSpace {fuel : ℕ} (space : Space fuel) (heap : GlobalAllocator) : Type 0 where
  pub layout : IsLayout heap.large_chunk_list space.chunks space.start space.stop
  pub large_start : heap.large_heap_start ≡ space.start
  pub large_stop : heap.large_heap_stop ≡ space.stop
  pub small_start : heap.small_heap_start ≡ space.small_start
  pub small_stop : heap.small_heap_stop ≡ space.small_stop

module _ {fuel : ℕ} (space : Space fuel) where
  pub unmarked-IsLarge :
      (c : Collector) (list : ChunkList)
      → IsSpace space c.global_allocator
      → IsLayout list (map unmarked space.chunks) space.start space.stop
      → IsLarge space (with_list c list).global_allocator
  unmarked-IsLarge c list w layout = record {
    shaped = Tiles-Shaped list.chunks space.start space.chunks space.stop layout.tiles;
    first = layout.first ∙ head_at-map space.chunks space.start;
    last = layout.last ∙ last_from-unmarked null space.start space.chunks;
    size = layout.size ∙ length-unmarked space.chunks;
    large_start = w.large_start;
    large_stop = w.large_stop;
    same_small_start = w.small_start;
    same_small_stop = w.small_stop;
  }
