-- ===== src/GlobalAllocator/Place.antt =====
-- The search of the large object space for a free chunk, as first fit on the chunks in order.
use gc.Base.{
  ℕ, zero, suc, ◌+◌, ◌≤◌, ◌<◌, ◌≡◌, ◌∙◌, refl, inl, inr, true, false, Bool, ◌&&◌, Option, none,
  some, [], ◌∷◌, arith, length, Bool-cases, word_mod, leb, ltb, le→leb, lt→ltb, ◌==◌, if◌then◌else◌,
  add64, add64-add, Run, ok, Returns, ==_lt,
}
use gc.Object.{object_header, byte}
use gc.Chunk
use gc.Chunk.{Chunk, null, sizeof_chunk, write, write_self, write_ne}
use gc.ChunkList.{ChunkList}
use gc.ChunkList.Layout.{
  Cell, Cells, extent, linked, head_at, last_from, Tiles, Tiles-total, Tiles-write, Rewrites,
  Rewrites-cons, Rewrites-trans,
}
use gc.ChunkList.Split.{cut, split-Rewrites}
use gc.GlobalAllocator.{GlobalAllocator, increment_counters, take_chunk, allocate_loop}

abbrev pub fits : ℕ → Cell → Bool
fits n c = (c.allocated == 0) && leb n c.object.size

-- The first of some chunks is given to the mutator.
abbrev pub taken : ℕ → Cells → Cells
taken atomic [] = []
taken atomic (c ∷ cs) =
    record c { allocated = 1; object = record (c.object) { atomic = byte atomic } } ∷ cs

abbrev pub behind : Cell → Option (ℕ × Cells) → Option (ℕ × Cells)
behind c none = none
behind c (some (q, cs)) = some (q, c ∷ cs)

-- First fit: the address of the first free chunk with room for `n` bytes, and the chunks once it is
-- cut to size and taken.
pub place : ℕ → ℕ → ℕ → Cells → Option (ℕ × Cells)
place n atomic p [] = none
place n atomic p (c ∷ cs) =
    let rest = place n atomic (p + extent c) cs in
    if fits n c then some (p, taken atomic (cut c n cs)) else behind c rest

pub fits-free : (n : ℕ) (c : Cell) → fits n c ≡ true → c.allocated ≡ 0
fits-free n c h = ground arith

pub fits-le : (n : ℕ) (c : Cell) → fits n c ≡ true → n ≤ c.object.size
fits-le n c h = ground arith

module _ (atomic : ℕ) where
  pub place-nil : (n p : ℕ) → place n atomic p [] ≡ none
  unfolding place
  place-nil n p = refl

  pub place-none :
      (n p : ℕ) (c : Cell) (cs : Cells)
      → fits n c ≡ false
      → place n atomic p (c ∷ cs) ≡ behind c (place n atomic (p + extent c) cs)
  unfolding place
  place-none n p c cs h = rw h

  pub place-fits :
      (n p : ℕ) (c : Cell) (cs : Cells)
      → fits n c ≡ true
      → place n atomic p (c ∷ cs) ≡ some (p, taken atomic (cut c n cs))
  unfolding place
  place-fits n p c cs h = rw h

module _ (size atomic stop : ℕ) where
  -- What an attempt comes to: NULL and no change where nothing fits; else the mutator's address in the
  -- chunk, the chunks rewritten, the counters raised, and nothing else changed.
  abbrev pub Outcome :
      GlobalAllocator → ℕ → Cells → Option (ℕ × Cells) → Run (GlobalAllocator × ℕ) → Type 0
  Outcome s p cs none r = r ≡ ok (s, null)
  Outcome s p cs (some (q, cs')) r = Returns r λ t.
      (t.1 ≡ q + sizeof_chunk)
      × (t.0 ≡ record (increment_counters s size) { large_chunk_list = t.0.large_chunk_list })
      × Rewrites s.large_chunk_list t.0.large_chunk_list p cs cs' stop

  allocated_chunk :
      {k : Chunk} (c : Cell) (next : ℕ)
      → k ≡ linked c next
      → Chunk.allocate k atomic
        ≡ linked
            (record c { allocated = 1; object = record (c.object) { atomic = byte atomic } })
            next
  unfolding Chunk.allocate
  allocated_chunk c next e = rw e

  allocate-Rewrites :
      (s : ChunkList) (p : ℕ) (cs : Cells)
      → Tiles s.chunks p cs stop
      → Rewrites s
          (record s { chunks = write s.chunks p (Chunk.allocate (s.chunks p) atomic) })
          p
          cs
          (taken atomic cs)
          stop
  allocate-Rewrites s p [] t = record {
    tiles = t;
    last = λ before h. h;
    size = refl;
    first = refl;
    frame = λ q h. write_ne s.chunks p _ q (omega arith);
    head = refl;
  }
  allocate-Rewrites s p (c ∷ cs) t = record {
    tiles = (
      write_self s.chunks p _ ∙ allocated_chunk c _ t.0,
      t.1,
      Tiles-write s.chunks p _ (p + extent c) cs stop (omega arith) t.2,
    );
    last = λ before h. h;
    size = refl;
    first = refl;
    frame = λ q h. write_ne s.chunks p _ q (omega arith);
    head = refl;
  }

  behind-Outcome :
      (s : GlobalAllocator) (p : ℕ) (c : Cell) (cs : Cells) (o : Option (ℕ × Cells))
      (r : Run (GlobalAllocator × ℕ))
      → Tiles s.large_chunk_list.chunks p (c ∷ cs) stop
      → Outcome s (p + extent c) cs o r
      → Outcome s p (c ∷ cs) (behind c o) r
  behind-Outcome s p c cs none r t w = w
  behind-Outcome s p c cs (some (q, cs')) r t (u, run, (e, f, w)) =
      (u, run, (e, f, Rewrites-cons c cs cs' t w))

  -- A chunk that fits is split and taken.
  take-Outcome :
      (s : GlobalAllocator) (p : ℕ) (c : Cell) (cs : Cells)
      → stop < word_mod
      → size + object_header ≤ c.object.size
      → s.large_chunk_list.size + 1 < word_mod
      → Tiles s.large_chunk_list.chunks p (c ∷ cs) stop
      → s.large_chunk_list.last ≡ last_from p cs (p + extent c)
      → Outcome s p
          (c ∷ cs)
          (some (p, taken atomic (cut c (size + object_header) cs)))
          (take_chunk s size atomic p)
  unfolding take_chunk Chunk.mutator_address
  take-Outcome s p c cs bound h small t l =
      let total = Tiles-total s.large_chunk_list.chunks (p + extent c) cs stop t.2 in
      let (r, run, w) =
        split-Rewrites s.large_chunk_list p stop c (size + object_header) cs bound (omega arith) h
          small t l in
      let e : add64 size object_header ≡ size + object_header =
        add64-add size object_header (omega arith) in
      (
        (_, p + sizeof_chunk),
        rw (e, run, add64-add p sizeof_chunk (omega (arith, t.1))),
        (refl, refl, Rewrites-trans w (allocate-Rewrites r.0 p _ w.tiles)),
      )

  pub allocate_loop-Outcome :
      (fuel : ℕ) (s : GlobalAllocator) (p : ℕ) (cs : Cells) (before : ℕ)
      → 0 < p
      → stop < word_mod
      → s.large_heap_start ≤ p
      → s.large_heap_stop ≡ stop
      → size + object_header < word_mod
      → s.large_chunk_list.size + 1 < word_mod
      → Tiles s.large_chunk_list.chunks p cs stop
      → s.large_chunk_list.last ≡ last_from before cs p
      → length cs < fuel
      → Outcome s p cs
          (place (size + object_header) atomic p cs)
          (allocate_loop fuel s size atomic (head_at cs p))
  unfolding allocate_loop
  allocate_loop-Outcome zero s p cs before pos bound lo hi fit small t l h = absurd (omega arith)
  allocate_loop-Outcome (suc fuel) s p [] before pos bound lo hi fit small t l h =
      rw (place-nil atomic (size + object_header) p) refl
  allocate_loop-Outcome (suc fuel) s p (c ∷ cs) before pos bound lo hi fit small t l h =
      let n = size + object_header in
      let e : add64 size object_header ≡ n = add64-add size object_header fit in
      let total = Tiles-total s.large_chunk_list.chunks (p + extent c) cs stop t.2 in
      let in_heap : ltb p s.large_heap_stop ≡ true = lt→ltb p s.large_heap_stop (omega arith) in
      elim (Bool-cases (fits n c)) [
        | inl k ↦
            rw
              (
                place-fits atomic n p c cs k,
                ==_lt p 0 pos,
                le→leb s.large_heap_start p lo,
                in_heap,
                t.0,
                e,
                k,
              )
              (take-Outcome s p c cs bound (fits-le n c k) small t l)
        | inr k ↦
            rw
              (
                place-none atomic n p c cs k,
                ==_lt p 0 pos,
                le→leb s.large_heap_start p lo,
                in_heap,
                t.0,
                e,
                k,
              )
              (behind-Outcome s p c cs (place n atomic (p + extent c) cs) _ t (
                allocate_loop-Outcome fuel s (p + extent c) cs p (omega arith) bound (omega arith)
                  hi fit small t.2 l (omega arith)))
      ]
