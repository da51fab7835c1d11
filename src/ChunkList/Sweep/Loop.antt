-- ===== src/ChunkList/Sweep/Loop.antt =====
-- The sweep as a whole.
use gc.Base.{
  ℕ, zero, suc, ◌+◌, ◌^◌, ◌≤◌, ◌<◌, ◌≡◌, refl, inl, inr, false, [], ◌∷◌, arith, length, Bool-cases,
  word_mod, ◌==◌, Returns, ==_lt,
}
use gc.Chunk
use gc.Chunk.{null}
use gc.ChunkList.{ChunkList, free_run, sweep_loop, sweep}
use gc.ChunkList.Layout.{
  Cell, Cells, extent, head_at, last_from, Tiles, IsLayout, IsLayout-size-lt, Rewrites,
  Rewrites-refl, Rewrites-cons, Rewrites-trans, Rewrites-IsLayout,
}
use gc.ChunkList.Sweep.{
  marked, behind_run, run_end, behind-length, swept, swept-nil, swept-marked, swept-unmarked,
  last_extent,
}
use gc.ChunkList.Sweep.Merge.{merged, limit_chunk, free_run-alone, free_run-merge}

head_differs : (b : Cells) (a n : ℕ) → 0 < n → n < a → (head_at b a == n) ≡ false
head_differs [] a n pos h = ground arith
head_differs (c ∷ b) a n pos h = ==_lt a n h

free_run-Rewrites :
    (s : ChunkList) (p : ℕ) (c : Cell) (cs : Cells) (stop fuel : ℕ)
    → 0 < p
    → length cs ≤ s.size
    → s.size < word_mod
    → Tiles s.chunks p (c ∷ cs) stop
    → length cs < fuel
    → stop < word_mod
    → s.last ≡ last_from p cs (p + extent c)
    → last_extent (extent c) cs < 2 ^ 31
    → Returns (free_run fuel s p) λ r.
      (r.1 ≡ limit_chunk s p c cs stop)
      × Rewrites s r.0 p (c ∷ cs) (merged s p c cs stop ∷ behind_run cs) stop
free_run-Rewrites s p c [] stop fuel pos many small t h bound l int_size =
    free_run-alone s p c [] stop fuel pos many small t h refl refl refl
free_run-Rewrites s p c (d ∷ cs) stop fuel pos many small t h bound l int_size =
    elim (Bool-cases (marked d)) [
      | inl k ↦ free_run-alone s p c (d ∷ cs) stop fuel pos many small t h (rw k) (rw k) (rw k)
      | inr k ↦
          free_run-merge s p c (d ∷ cs) stop fuel pos many small t h bound l int_size
            (rw k (omega arith))
            (head_differs (behind_run (d ∷ cs)) _ (p + extent c) (omega arith) (rw k (omega arith)))
    ]

last_extent-zero : (x : ℕ) (cs : Cells) → last_extent 0 cs ≤ last_extent x cs
last_extent-zero x [] = omega arith
last_extent-zero x (c ∷ cs) = omega arith

last_extent-behind : (x : ℕ) (cs : Cells) → last_extent 0 (behind_run cs) ≤ last_extent x cs
last_extent-behind x [] = omega arith
last_extent-behind x (c ∷ cs) = elim (Bool-cases (marked c)) [
  | inl k ↦ rw k (omega arith)
  | inr k ↦ rw k (last_extent-behind (extent c) cs)
]

sweep_loop-Rewrites :
    (fuel : ℕ) (s : ChunkList) (p : ℕ) (cs : Cells) (stop before : ℕ)
    → 0 < p
    → stop < word_mod
    → length cs ≤ s.size
    → s.size < word_mod
    → Tiles s.chunks p cs stop
    → s.last ≡ last_from before cs p
    → last_extent 0 cs < 2 ^ 31
    → length cs < fuel
    → Returns (sweep_loop fuel s (head_at cs p)) λ s'. Rewrites s s' p cs (swept cs) stop
unfolding sweep_loop Chunk.is_marked
sweep_loop-Rewrites zero s p cs stop before pos bound many small t l int_size h =
    absurd (omega arith)
sweep_loop-Rewrites (suc fuel) s p [] stop before pos bound many small t l int_size h =
    (s, refl, rw swept-nil (Rewrites-refl [] t))
sweep_loop-Rewrites (suc fuel) s p (c ∷ cs) stop before pos bound many small t l int_size h =
    elim (Bool-cases (marked c)) [
      | inl k ↦
          let (s', run, r) =
            sweep_loop-Rewrites fuel s (p + extent c) cs stop p (omega arith) bound (omega arith)
              small t.2 l (omega (arith, last_extent-zero (extent c) cs)) (omega arith) in
          (
            s',
            rw (t.0, ==_lt p 0 pos, k) run,
            rw (swept-marked c cs k) (Rewrites-cons c cs (swept cs) t r),
          )
      | inr k ↦
          let (r1, run1, (e1, w1)) =
            free_run-Rewrites s p c cs stop fuel pos (omega arith) small t (omega arith) bound l
              int_size in
          let (s', run, r) =
            sweep_loop-Rewrites fuel r1.0 (p + extent (merged s p c cs stop)) (behind_run cs) stop p
              (omega arith) bound (omega (arith, w1.size, behind-length cs))
              (omega (arith, w1.size, behind-length cs)) w1.tiles.2 (w1.last before l)
              (omega (arith, last_extent-behind (extent c) cs)) (omega (arith, behind-length cs)) in
          let m = merged s p c cs stop in
          let e : run_end (p + extent c) cs ≡ p + extent m = omega arith in
          let tail = Rewrites-cons m (behind_run cs) (swept (behind_run cs)) w1.tiles r in
          (
            s',
            rw (t.0, ==_lt p 0 pos, k, run1, e1, e) run,
            rw (swept-unmarked c cs k) (Rewrites-trans w1 tail),
          )
    ]

-- The sweep of a laid out list ends, with fuel for one step more than there are chunks, and fails
-- no assertion: it leaves exactly the chunks that `swept` describes, laid out from the same start
-- to the same stop. An `int` has to hold the size of the last chunk.
pub sweep-swept :
    {s : ChunkList} {cs : Cells} {start stop : ℕ} (fuel : ℕ)
    → IsLayout s cs start stop
    → last_extent 0 cs < 2 ^ 31
    → length cs < fuel
    → Returns (sweep fuel s) λ s'. IsLayout s' (swept cs) start stop
unfolding sweep
sweep-swept {s} {cs} {start} {stop} fuel w int_size h =
    let (s', run, r) =
      sweep_loop-Rewrites fuel s start cs stop null w.positive w.bounded (omega (arith, w.size))
        (omega (arith, w.size, IsLayout-size-lt w)) w.tiles w.last int_size h in
    (s', simp w.first run, Rewrites-IsLayout cs (swept cs) w r)
