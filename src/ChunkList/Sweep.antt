-- ===== src/ChunkList/Sweep.antt =====
-- `ChunkList_sweep` against its effect on the chunks in order: what is unmarked becomes free, and
-- neighbours that are unmarked become one chunk.
pub mod Merge
pub mod Loop
pub mod Collected
use gc.Base.{
  ℕ, zero, suc, ◌+◌, ◌-◌, ◌^◌, ◌≤◌, ◌<◌, ◌≡◌, ◌∙◌, refl, sym, ap, inl, inr, true, false, Bool, [],
  ◌∷◌, arith, length, total, Bool-cases, word_mod, ltb, ◌==◌, if◌then◌else◌, add64, sub64,
  add64-add, sub64-sub, sub64-wrap, ok, Returns, ◌>>=◌, ==_refl, ==_lt,
}
use native.Mathlib.Nat.{add-zero}
use gc.Object.{Object, object_header}
use gc.Chunk
use gc.Chunk.{Chunk, Chunks, null, chunk_header_size, write, write_self, write_ne}
use gc.ChunkList.{
  ChunkList, set_next, set_size, set_free, limit, merge, skip_unmarked, free_run, sweep_loop, sweep,
}
use gc.ChunkList.Layout.{
  Cell, Cells, extent, linked, head_at, last_from, Tiles, Tiles-total, Tiles-frame, IsLayout,
  IsLayout-size-lt, Rewrites, Rewrites-refl, Rewrites-cons, Rewrites-trans, Rewrites-IsLayout,
}
use gc.ChunkList.Split.{resized, last_from-ge}

abbrev pub marked : Cell → Bool
marked c = c.object.marked == 1

abbrev pub freed : Cell → Cell
freed c = record c { allocated = 0 }

-- A freed chunk in front of swept ones takes in the first of them if that is free too.
pub join : Cell → Cells → Cells
join c [] = freed c ∷ []
join c (d ∷ ds) =
    if marked d then freed c ∷ d ∷ ds else freed (resized c (c.object.size + extent d)) ∷ ds

pub swept : Cells → Cells
swept [] = []
swept (c ∷ cs) = if marked c then c ∷ swept cs else join c (swept cs)

-- The unmarked chunks in front, and what stands behind them.
abbrev pub unmarked_run : Cells → Cells
unmarked_run [] = []
unmarked_run (c ∷ cs) = if marked c then [] else c ∷ unmarked_run cs

abbrev pub behind_run : Cells → Cells
behind_run [] = []
behind_run (c ∷ cs) = if marked c then c ∷ cs else behind_run cs

pub swept-nil : swept [] ≡ []
unfolding swept
swept-nil = refl

pub swept-marked : (c : Cell) (cs : Cells) → marked c ≡ true → swept (c ∷ cs) ≡ c ∷ swept cs
unfolding swept
swept-marked c cs h = rw h

pub join-swept :
    (c : Cell) (cs : Cells)
    → join c (swept cs)
      ≡ freed (resized c (c.object.size + total extent (unmarked_run cs))) ∷ swept (behind_run cs)
unfolding join swept
join-swept c [] = ground arith
join-swept c (d ∷ cs) = elim (Bool-cases (marked d)) [
  | inl m ↦ ground arith
  | inr u ↦ ground (arith, join-swept d cs)
]

pub swept-unmarked :
    (c : Cell) (cs : Cells)
    → marked c ≡ false
    → swept (c ∷ cs)
      ≡ freed (resized c (c.object.size + total extent (unmarked_run cs))) ∷ swept (behind_run cs)
unfolding swept
swept-unmarked c cs h = rw h (join-swept c cs)

abbrev pub run_end : ℕ → Cells → ℕ
run_end p cs = p + total extent (unmarked_run cs)

behind-length : (cs : Cells) → length (unmarked_run cs) + length (behind_run cs) ≡ length cs
behind-length [] = omega arith
behind-length (c ∷ cs) = ground (arith, behind-length cs)

behind-Tiles :
    (m : Chunks) (p : ℕ) (cs : Cells) (stop : ℕ)
    → Tiles m p cs stop
    → Tiles m (run_end p cs) (behind_run cs) stop
behind-Tiles m p [] stop t = omega arith
behind-Tiles m p (c ∷ cs) stop t = elim (Bool-cases (marked c)) [
  | inl h ↦ rw (h, add-zero p) t
  | inr h ↦
      let e : p + extent c + total extent (unmarked_run cs)
          ≡ p + (extent c + total extent (unmarked_run cs)) =
        omega arith in
      rw h (rw e at (behind-Tiles m (p + extent c) cs stop t.2))
]

behind-last :
    (before other p : ℕ) (cs : Cells) (e : Cell) (es : Cells)
    → behind_run cs ≡ e ∷ es
    → last_from before cs p ≡ last_from other (e ∷ es) (run_end p cs)
behind-last before other p [] e es h = cc
behind-last before other p (c ∷ cs) e es h = elim (Bool-cases (marked c)) [
  | inl k ↦
      let e' : c ∷ cs ≡ e ∷ es = rw k at h in rw (k, add-zero p) (ap (λ l. last_from other l p) e')
  | inr k ↦
      let e' : p + extent c + total extent (unmarked_run cs)
          ≡ p + (extent c + total extent (unmarked_run cs)) =
        omega arith in
      let h' : behind_run cs ≡ e ∷ es = rw k at h in
      rw k (rw e' at (behind-last p other (p + extent c) cs e es h'))
]

skip_unmarked-ok :
    (fuel : ℕ) (m : Chunks) (p : ℕ) (cs : Cells) (stop count : ℕ)
    → 0 < p
    → count + length cs < word_mod
    → Tiles m p cs stop
    → length cs < fuel
    → skip_unmarked fuel m (head_at cs p) count
      ≡ ok (head_at (behind_run cs) (run_end p cs), count + length (unmarked_run cs))
unfolding skip_unmarked Chunk.is_marked
skip_unmarked-ok zero m p cs stop count pos small t h = absurd (omega arith)
skip_unmarked-ok (suc fuel) m p [] stop count pos small t h = ground arith
skip_unmarked-ok (suc fuel) m p (c ∷ cs) stop count pos small t h =
    let rest =
      skip_unmarked-ok fuel m (p + extent c) cs stop (count + 1) (omega arith) (omega arith) t.2
        (omega arith) in
    elim (Bool-cases (marked c)) [
      | inl k ↦ rw (t.0, ==_lt p 0 pos, k) (ground arith)
      | inr k ↦ rw (t.0, ==_lt p 0 pos, k, add64-add count 1 (omega arith), rest) (ground arith)
    ]

-- The limit of the list is the end of its last chunk, if an `int` holds that chunk's size.
abbrev pub last_extent : ℕ → Cells → ℕ
last_extent before [] = before
last_extent before (c ∷ cs) = last_extent (extent c) cs

last_chunk_size :
    (m : Chunks) (before p : ℕ) (c : Cell) (cs : Cells) (stop other : ℕ)
    → 0 < p
    → stop < word_mod
    → last_extent other (c ∷ cs) < 2 ^ 31
    → Tiles m p (c ∷ cs) stop
    → (0 < last_from before (c ∷ cs) p)
      × (add64 (last_from before (c ∷ cs) p) (Chunk.chunk_size (m (last_from before (c ∷ cs) p)))
          ≡ stop)
last_chunk_size m before p c [] stop other pos bound small t = (
  pos,
  rw (t.0, Chunk.chunk_size-small (linked c null) (omega arith))
      (add64-add p (c.object.size + chunk_header_size) (omega arith) ∙ omega arith),
)
last_chunk_size m before p c (d ∷ cs) stop other pos bound small t =
    last_chunk_size m p (p + extent c) d cs stop (extent c) (omega arith) bound small t.2

limit-stop :
    (s : ChunkList) (before p : ℕ) (c : Cell) (cs : Cells) (stop : ℕ)
    → 0 < p
    → stop < word_mod
    → last_extent 0 (c ∷ cs) < 2 ^ 31
    → Tiles s.chunks p (c ∷ cs) stop
    → s.last ≡ last_from before (c ∷ cs) p
    → limit s ≡ stop
unfolding limit
limit-stop s before p c cs stop pos bound small t l =
    let r = last_chunk_size s.chunks before p c cs stop 0 pos bound small t in
    rw (l, ==_lt _ 0 r.0) r.1
