-- ===== src/Immix/Usage.antt =====
-- The statistics of the large object space in src/immix.c, against the chunks in order.
use gc.Base.{
  ℕ, zero, suc, ◌+◌, ◌-◌, ◌≤◌, ◌<◌, ◌≡◌, refl, inl, inr, [], ◌∷◌, arith, length, total, ◌==◌,
  if◌then◌else◌, Bool-cases, word_mod, add64-add, sub64-sub, Run, ok, ◌∙◌, ==_lt,
}
use gc.Object.{object_header}
use gc.ChunkList.{ChunkList}
use gc.ChunkList.Layout.{Cell, Cells, extent, head_at, Tiles, Tiles-total, IsLayout}
use gc.GlobalAllocator.{GlobalAllocator}
use gc.Immix.Stats.{Stats, count_object, count_chunks, large_heap_stats}

abbrev pub live : Cell → ℕ
live c = if c.allocated == 0 then 0 else 1

-- The mutator's bytes of a chunk in use.
abbrev pub live_bytes : Cell → ℕ
live_bytes c = if c.allocated == 0 then 0 else c.object.size - object_header

live-le-extent : (cs : Cells) → total live cs ≤ total extent cs
live-le-extent [] = omega arith
live-le-extent (c ∷ cs) = ground (arith, live-le-extent cs)

live_bytes-le-extent : (cs : Cells) → total live_bytes cs ≤ total extent cs
live_bytes-le-extent [] = omega arith
live_bytes-le-extent (c ∷ cs) = ground (arith, live_bytes-le-extent cs)

count_object-add :
    (t : Stats) (size : ℕ)
    → object_header ≤ size
    → t.count + 1 < word_mod
    → size < word_mod
    → t.bytes + size < word_mod
    → count_object t size ≡ record { count = t.count + 1; bytes = t.bytes + (size - object_header) }
unfolding count_object
count_object-add t size h k l m =
    rw
      (
        add64-add t.count 1 k,
        sub64-sub size object_header h l,
        add64-add t.bytes (size - object_header) (omega arith),
      )
      refl

stats_equal :
    {a b m n : ℕ}
    → a ≡ b
    → m ≡ n
    → Path (Run Stats) (ok (record { count = a; bytes = m })) (ok (record { count = b; bytes = n }))
stats_equal e f = rw (e, f) refl

count_chunks-total :
    (fuel : ℕ) (s : ChunkList) (p : ℕ) (cs : Cells) (stop : ℕ) (t : Stats)
    → 0 < p
    → Tiles s.chunks p cs stop
    → length cs < fuel
    → t.count + total extent cs < word_mod
    → t.bytes + total extent cs < word_mod
    → count_chunks fuel s (head_at cs p) t
      ≡ ok (record { count = t.count + total live cs; bytes = t.bytes + total live_bytes cs })
unfolding count_chunks
count_chunks-total zero s p cs stop t pos tiles enough few small = absurd (omega arith)
count_chunks-total (suc fuel) s p [] stop t pos tiles enough few small = ground arith
count_chunks-total (suc fuel) s p (c ∷ cs) stop t pos tiles enough few small =
    elim (Bool-cases (c.allocated == 0)) [
      | inl free ↦
          let rest =
            count_chunks-total fuel s (p + extent c) cs stop t (omega arith) tiles.2 (omega arith)
              (omega arith) (omega arith) in
          rw (tiles.0, ==_lt p 0 pos, free) (rest ∙ stats_equal (omega arith) (omega arith))
      | inr used ↦
          let counted =
            count_object-add t c.object.size tiles.1 (omega arith) (omega arith) (omega arith) in
          let rest =
            count_chunks-total fuel s (p + extent c) cs stop
              (record { count = t.count + 1; bytes = t.bytes + (c.object.size - object_header) })
              (omega arith) tiles.2 (omega arith) (omega arith) (omega arith) in
          rw (tiles.0, ==_lt p 0 pos, used, counted)
            (rest ∙ stats_equal (omega arith) (omega arith))
    ]

-- On a laid out large space, with fuel for one step more than there are chunks, the statistics are
-- the number of chunks in use and the sum of their mutators' bytes; neither wraps around.
pub large_heap_stats-total :
    (fuel : ℕ) (s : GlobalAllocator) (cs : Cells) (start stop : ℕ)
    → IsLayout s.large_chunk_list cs start stop
    → length cs < fuel
    → large_heap_stats fuel s ≡ ok (record { count = total live cs; bytes = total live_bytes cs })
unfolding large_heap_stats
large_heap_stats-total fuel s cs start stop w enough =
    let zeros : Stats = record { count = 0; bytes = 0 } in
    let span = Tiles-total s.large_chunk_list.chunks start cs stop w.tiles in
    let run =
      count_chunks-total fuel s.large_chunk_list start cs stop zeros w.positive w.tiles enough
        (omega (arith, w.bounded)) (omega (arith, w.bounded)) in
    simp w.first (run ∙ stats_equal (omega arith) (omega arith))
