-- ===== src/GlobalAllocator/Deallocate.antt =====
-- `GC_GlobalAllocator_deallocateLarge` of src/global_allocator.c, which frees a chunk in place.
use gc.Base.{
  ℕ, ◌+◌, ◌≤◌, ◌<◌, ◌≡◌, ◌≢◌, ◌∙◌, refl, sym, ap, inl, inr, false, not, [], ◌∷◌, arith, Bool-cases,
  ◌==◌, ==_refl, if◌then◌else◌, add64, add64-add, sub64, sub64-sub, Run, ok, Returns, ◌>>=◌,
}
use gc.Object
use gc.Chunk
use gc.Chunk.{null, sizeof_chunk, chunk_header_size, write, write_self, write_ne}
use gc.ChunkList
use gc.ChunkList.{ChunkList}
use gc.ChunkList.Layout.{
  Cell, Cells, extent, linked, Tiles, Tiles-total, Tiles-write, Rewrites, Rewrites-cons,
  Rewrites-IsLayout,
}
use gc.ChunkList.Find.{StandsAt, here, there, StandsAt-le}
use gc.ChunkList.Sweep.{freed}
use gc.Hash
use gc.GlobalAllocator.{GlobalAllocator}
use gc.GlobalAllocator.Large.{HasLayout}

-- A finalizer is a function of the program: `finalizer callback address` runs it.
module _ (hash : ℕ → ℕ) (fuel : ℕ) (finalizer : ℕ → ℕ → GlobalAllocator → Run GlobalAllocator) where
  unfoldable pub delete_finalizer : GlobalAllocator → ℕ → Run (GlobalAllocator × ℕ)
  delete_finalizer self object = Hash.delete hash fuel self.finalizers object >>= λ r.
      ok (record self { finalizers = r.0 }, r.1)

  -- `GlobalAllocator_finalize` of one object, whether it is marked or not.
  unfoldable pub finalize : GlobalAllocator → ℕ → Run GlobalAllocator
  finalize self object = delete_finalizer self object >>= λ r.
      let finalized = finalizer r.1 (Object.mutator_address object) r.0 in
      (if not (r.1 == null) then finalized else ok r.0)

  unfoldable pub deallocate_large : GlobalAllocator → ℕ → Run GlobalAllocator
  deallocate_large self pointer =
      let chunk = sub64 pointer sizeof_chunk in
      delete_finalizer self (add64 chunk chunk_header_size) >>= λ r.
      (if r.1 == null then ok r.0 else finalizer r.1 (Chunk.mutator_address chunk) r.0) >>= λ s.
      ok (record s {
        large_chunk_list = record (s.large_chunk_list) {
          chunks = ChunkList.set_free s.large_chunk_list.chunks chunk;
        };
      })

-- The chunks from `p` on with the one at `q` freed.
pub released : ℕ → ℕ → Cells → Cells
released q p [] = []
released q p (c ∷ cs) =
    let rest = released q (p + extent c) cs in if p == q then freed c ∷ cs else c ∷ rest

set_free_self :
    (s : ChunkList) (q : ℕ) (c : Cell) (next : ℕ)
    → s.chunks q ≡ linked c next
    → ChunkList.set_free s.chunks q q ≡ linked (freed c) next
unfolding ChunkList.set_free
set_free_self s q c next e =
    write_self s.chunks q _ ∙ ap (λ (k : Chunk.Chunk). record k { allocated = 0 }) e

set_free_ne : (s : ChunkList) (q r : ℕ) → r ≢ q → ChunkList.set_free s.chunks q r ≡ s.chunks r
unfolding ChunkList.set_free
set_free_ne s q r h = write_ne s.chunks q _ r h

Tiles-set_free :
    (s : ChunkList) (q p : ℕ) (cs : Cells) (stop : ℕ)
    → q < p
    → Tiles s.chunks p cs stop
    → Tiles (ChunkList.set_free s.chunks q) p cs stop
unfolding ChunkList.set_free
Tiles-set_free s q p cs stop h = Tiles-write s.chunks q _ p cs stop h

released-Rewrites :
    {q stop : ℕ} {c : Cell} (s : ChunkList) (p : ℕ) (cs : Cells)
    → Tiles s.chunks p cs stop
    → StandsAt q c p cs
    → Rewrites s (record s { chunks = ChunkList.set_free s.chunks q }) p cs (released q p cs) stop
unfolding released
released-Rewrites s p [] t at = elim at [ ]
released-Rewrites {q} {stop} s p (c ∷ cs) t (here e) =
    rw (sym e, ==_refl p)
      (record {
        tiles = (
          set_free_self s p c _ t.0,
          t.1,
          Tiles-set_free s p (p + extent c) cs stop (omega arith) t.2,
        );
        last = λ before h. h;
        size = refl;
        first = refl;
        frame = λ r h. set_free_ne s p r (omega arith);
        head = refl;
      })
released-Rewrites {q} s p (c ∷ cs) t (there at) =
    let far : (p == q) ≡ false = ground (arith, StandsAt-le at) in
    rw far (Rewrites-cons c cs _ t (released-Rewrites s (p + extent c) cs t.2 at))

-- A finalizer returns, and leaves the large space as it is: it may allocate nothing there.
pub record Finalizes (finalizer : ℕ → ℕ → GlobalAllocator → Run GlobalAllocator) : Type 0 where
  pub finalizes :
      (callback address : ℕ) (s : GlobalAllocator)
      → (s' : GlobalAllocator) × (finalizer callback address s ≡ ok s')
        × (s'.large_chunk_list ≡ s.large_chunk_list)
        × (s'.large_heap_start ≡ s.large_heap_start)
        × (s'.large_heap_stop ≡ s.large_heap_stop)
        × (s'.large_heap_size ≡ s.large_heap_size)

-- The large space is the same in both states.
record SameLarge (s s' : GlobalAllocator) : Type 0 where
  list : s'.large_chunk_list ≡ s.large_chunk_list
  start : s'.large_heap_start ≡ s.large_heap_start
  stop : s'.large_heap_stop ≡ s.large_heap_stop
  size : s'.large_heap_size ≡ s.large_heap_size

free_chunk-HasLayout :
    {s s' : GlobalAllocator} {cs : Cells} {c : Cell} (q : ℕ)
    → HasLayout s cs
    → SameLarge s s'
    → StandsAt q c s.large_heap_start cs
    → HasLayout
        (record s' {
          large_chunk_list = record (s'.large_chunk_list) {
            chunks = ChunkList.set_free s'.large_chunk_list.chunks q;
          };
        })
        (released q s.large_heap_start cs)
free_chunk-HasLayout {s} {s'} {cs} q w e at =
    simp (e.list, e.start, e.stop, e.size)
      (record {
        layout =
            Rewrites-IsLayout cs (released q s.large_heap_start cs) w.layout
              (released-Rewrites s.large_chunk_list s.large_heap_start cs w.layout.tiles at);
        extends = w.extends;
      })

StandsAt-end :
    {q stop : ℕ} {c : Cell} (s : ChunkList) (p : ℕ) (cs : Cells)
    → Tiles s.chunks p cs stop
    → StandsAt q c p cs
    → q + sizeof_chunk ≤ stop
StandsAt-end s p [] t at = elim at [ ]
StandsAt-end {stop = stop} s p (c ∷ cs) t (here e) =
    omega (arith, t.1, Tiles-total s.chunks (p + extent c) cs stop t.2)
StandsAt-end s p (c ∷ cs) t (there at) = StandsAt-end s (p + extent c) cs t.2 at

-- Releasing the object of a chunk of a laid out large space ends, if the lookup of its finalizer
-- ends. It leaves the space laid out with that chunk free in place, neither moved nor merged, and
-- the other chunks as they were, whether a finalizer ran or not. Finalizers are such that they
-- return and leave the large space as it is.
pub deallocate_large-released :
    (hash : ℕ → ℕ) (fuel : ℕ) (finalizer : ℕ → ℕ → GlobalAllocator → Run GlobalAllocator)
    {s : GlobalAllocator} {cs : Cells} {c : Cell} (q : ℕ) (finalizers : Hash.Hash) (callback : ℕ)
    → Finalizes finalizer
    → HasLayout s cs
    → StandsAt q c s.large_heap_start cs
    → Hash.delete hash fuel s.finalizers (q + chunk_header_size) ≡ ok (finalizers, callback)
    → Returns
        (deallocate_large hash fuel finalizer s (q + sizeof_chunk))
        λ s'. HasLayout s' (released q s.large_heap_start cs)
unfolding deallocate_large delete_finalizer
deallocate_large-released hash fuel finalizer {s} {cs} q table callback f w at run =
    let end = StandsAt-end s.large_chunk_list s.large_heap_start cs w.layout.tiles at in
    let chunk : sub64 (q + sizeof_chunk) sizeof_chunk ≡ q =
      sub64-sub (q + sizeof_chunk) sizeof_chunk (omega arith) (omega (arith, w.layout.bounded))
      ∙ omega arith in
    let object : add64 q chunk_header_size ≡ q + chunk_header_size =
      add64-add q chunk_header_size (omega (arith, w.layout.bounded)) in
    elim (Bool-cases (callback == null)) [
      | inl none_ ↦ (
        _,
        rw (chunk, object, run, none_) refl,
        free_chunk-HasLayout {s' = record s { finalizers = table }} q w
            (record { list = refl; start = refl; stop = refl; size = refl }) at,
      )
      | inr some_ ↦
          let (s', called, list, start, stop, size) =
            f.finalizes callback (Chunk.mutator_address q) (record s { finalizers = table }) in
          (
            _,
            rw (chunk, object, run, some_, called) refl,
            free_chunk-HasLayout {s' = s'} q w
                (record { list = list; start = start; stop = stop; size = size }) at,
          )
    ]
