-- ===== src/ChunkList/Sweep/Merge.antt =====
-- One round of the sweep: `ChunkList_merge` and the freeing of a run of unmarked chunks.
use gc.Base.{
  ℕ, ◌+◌, ◌-◌, ◌^◌, ◌≤◌, ◌<◌, ◌≡◌, ◌∙◌, refl, sym, ap, false, [], ◌∷◌, arith, length, total,
  word_mod, ◌==◌, if◌then◌else◌, sub64, sub64-sub, ok, Returns, ==_refl, ==_lt, lt→ltb,
}
use gc.Chunk.{null, chunk_header_size, write, write_self, write_ne}
use gc.ChunkList.{ChunkList, set_next, set_size, set_free, limit, merge, skip_unmarked, free_run}
use gc.ChunkList.Layout.{
  Cell, Cells, extent, linked, head_at, last_from, Tiles, Tiles-total, Tiles-frame, Rewrites,
}
use gc.ChunkList.Split.{resized}
use gc.ChunkList.Sweep.{
  freed, unmarked_run, behind_run, run_end, behind-length, behind-Tiles, behind-last,
  skip_unmarked-ok, last_extent, limit-stop,
}

sub64-chunk :
    (a p : ℕ)
    → p + chunk_header_size ≤ a
    → a < word_mod
    → sub64 (sub64 a p) chunk_header_size ≡ a - p - chunk_header_size
sub64-chunk a p h k =
    rw (
      sub64-sub a p (omega arith) k,
      sub64-sub (a - p) chunk_header_size (omega arith) (omega arith),
    )

sub64-count : (a b : ℕ) → b ≤ a → a < word_mod → sub64 a (0 + b) + b ≡ a
sub64-count a b h k = omega (arith, sub64-sub a (0 + b) (omega arith) k)

module _ (s : ChunkList) (p : ℕ) (c : Cell) (cs : Cells) (stop : ℕ) where
  abbrev pub next : ℕ
  next = p + extent c

  abbrev pub after : ℕ
  after = run_end next cs

  abbrev pub limit_chunk : ℕ
  limit_chunk = head_at (behind_run cs) after

  abbrev pub merged : Cell
  merged = freed (resized c (c.object.size + total extent (unmarked_run cs)))

  -- Whoever leaves this memory and these fields has freed the run.
  run-Rewrites :
      (s' : ChunkList)
      → ((q : ℕ) → s'.chunks q ≡ write s.chunks p (linked merged limit_chunk) q)
      → s'.first ≡ s.first
      → ((before : ℕ) → s.last ≡ last_from p cs next → s'.last ≡ last_from p (behind_run cs) after)
      → s'.size + length (unmarked_run cs) ≡ s.size
      → Tiles s.chunks p (c ∷ cs) stop
      → Rewrites s s' p (c ∷ cs) (merged ∷ behind_run cs) stop
  run-Rewrites s' mem first last size t =
      let e : after ≡ p + extent merged = omega arith in
      let same : (q : ℕ) → next ≤ q → s'.chunks q ≡ s.chunks q =
        λ q h. mem q ∙ write_ne s.chunks p _ q (omega arith) in
      let rest =
        behind-Tiles s'.chunks next cs stop
          (Tiles-frame s.chunks s'.chunks next cs stop same t.2) in
      record {
        tiles = (mem p ∙ write_self s.chunks p _ ∙ rw e, omega (arith, t.1), rw e at rest);
        last = λ before h. last before h ∙ ap (last_from p (behind_run cs)) e;
        size = omega (arith, size, behind-length cs);
        first = first;
        frame = λ q h. mem q ∙ write_ne s.chunks p _ q (omega arith);
        head = refl;
      }

  -- The memory after `chunk->allocated = 0` and a merge.
  merge_chunks :
      (q size : ℕ)
      → size ≡ merged.object.size
      → s.chunks p ≡ linked c (head_at cs next)
      → set_size (set_next (set_free s.chunks p) p limit_chunk) p size q
        ≡ write s.chunks p (linked merged limit_chunk) q
  unfolding set_size set_next set_free write
  merge_chunks q size e t = ground arith

  keep_chunks :
      (q : ℕ)
      → total extent (unmarked_run cs) ≡ 0
      → s.chunks p ≡ linked c (head_at cs next)
      → limit_chunk ≡ head_at cs next
      → set_free s.chunks p q ≡ write s.chunks p (linked merged limit_chunk) q
  unfolding set_free write
  keep_chunks q e t l = ground arith

  free_next :
      s.chunks p ≡ linked c (head_at cs next) → (set_free s.chunks p p).next ≡ head_at cs next
  unfolding set_free write
  free_next e = ground arith

  free_size :
      s.chunks p ≡ linked c (head_at cs next) → (set_free s.chunks p p).object.size ≡ c.object.size
  unfolding set_free write
  free_size e = ground arith

  free_head :
      s.chunks p ≡ linked c (head_at cs next)
      → set_free s.chunks p p ≡ linked (freed c) (head_at cs next)
  unfolding set_free write
  free_head e = ground arith

  free_Tiles : Tiles s.chunks p (c ∷ cs) stop → Tiles (set_free s.chunks p) next cs stop
  unfolding set_free
  free_Tiles t =
      Tiles-frame s.chunks _ next cs stop (λ q h. write_ne s.chunks p _ q (omega arith)) t.2

  module _ (fuel : ℕ) (pos : 0 < p) (many : length cs ≤ s.size) (small : s.size < word_mod)
      (t : Tiles s.chunks p (c ∷ cs) stop) (h : length cs < fuel) where
    abbrev pub Frees : Type 0
    Frees =
        Returns (free_run fuel s p)
          λ r. (r.1 ≡ limit_chunk) × Rewrites s r.0 p (c ∷ cs) (merged ∷ behind_run cs) stop

    skip :
        skip_unmarked fuel (set_free s.chunks p) (head_at cs next) 0
        ≡ ok (limit_chunk, 0 + length (unmarked_run cs))
    skip =
        skip_unmarked-ok fuel (set_free s.chunks p) next cs stop 0 (omega arith) (omega arith)
          (free_Tiles t) h

    -- No unmarked chunk follows: the chunk is freed, and nothing merged.
    pub free_run-alone :
        total extent (unmarked_run cs) ≡ 0
        → length (unmarked_run cs) ≡ 0
        → behind_run cs ≡ cs
        → Frees
    unfolding free_run
    free_run-alone flat zero_ whole =
        let e : after ≡ next = omega arith in
        let same : limit_chunk ≡ head_at cs next =
          ap (λ l. head_at l after) whole ∙ ap (head_at cs) e in
        (
          (record s { chunks = set_free s.chunks p }, limit_chunk),
          rw (free_next t.0, skip, same, ==_refl (head_at cs next)),
          (
            refl,
            run-Rewrites _ (λ q. keep_chunks q flat t.0 same) refl
                (λ before l.
                  l ∙ ap (last_from p cs) (sym e) ∙ ap (λ l. last_from p l after) (sym whole))
                (omega arith) t,
          ),
        )

    -- An unmarked chunk follows: the run becomes one free chunk.
    module _ (bound : stop < word_mod) (l : s.last ≡ last_from p cs next)
        (int_size : last_extent (extent c) cs < 2 ^ 31) where
      abbrev pub freed_list : ChunkList
      freed_list = record s { chunks = set_free s.chunks p }

      limit_freed : limit freed_list ≡ stop
      limit_freed =
          limit-stop freed_list p p (freed c) cs stop pos bound int_size
            (free_head t.0, t.1, free_Tiles t) l

      stop_value :
          (b : Cells)
          → behind_run cs ≡ b
          → (if head_at b after == null then limit freed_list else head_at b after) ≡ after
      stop_value [] e =
          let end : after ≡ stop = rw e at (behind-Tiles s.chunks next cs stop t.2) in
          limit_freed ∙ sym end
      stop_value (x ∷ b) e = rw (==_lt after 0 (omega arith))

      last_value :
          (b : Cells)
          → behind_run cs ≡ b
          → (if head_at b after == null then p else s.last) ≡ last_from p b after
      last_value [] e = refl
      last_value (x ∷ b) e =
          rw (==_lt after 0 (omega arith)) (l ∙ behind-last p after next cs x b e)

      pub free_run-merge :
          0 < total extent (unmarked_run cs) → (limit_chunk == head_at cs next) ≡ false → Frees
      unfolding free_run merge
      free_run-merge some_ differs =
          let size : sub64 (sub64 after p) chunk_header_size ≡ merged.object.size =
            sub64-chunk after p (omega arith) (
              omega (
                arith,
                Tiles-total s.chunks after (behind_run cs) stop
                    (behind-Tiles s.chunks next cs stop t.2),
              ))
            ∙ omega arith in
          (
            (
              record s {
                chunks =
                    set_size (set_next (set_free s.chunks p) p limit_chunk) p merged.object.size;
                last = if limit_chunk == null then p else s.last;
                size = sub64 s.size (0 + length (unmarked_run cs));
              },
              limit_chunk,
            ),
            rw (free_next t.0, skip, differs, stop_value (behind_run cs) refl, size, free_size t.0)
                (rw (lt→ltb c.object.size merged.object.size (omega arith))),
            (
              refl,
              run-Rewrites _ (λ q. merge_chunks q _ refl t.0) refl
                  (λ before _. last_value (behind_run cs) refl)
                  (sub64-count s.size (length (unmarked_run cs)) (omega (arith, behind-length cs))
                    small)
                  t,
            ),
          )
