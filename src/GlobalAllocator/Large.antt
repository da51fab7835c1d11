-- ===== src/GlobalAllocator/Large.antt =====
-- Allocation in the large object space: what an attempt gives, and what it leaves alone.
use gc.Base.{
  ℕ, ◌+◌, ◌-◌, ◌≤◌, ◌<◌, ◌≡◌, ◌≢◌, refl, inl, inr, true, Option, none, some, [], ◌∷◌, arith, length,
  Bool-cases, word_mod, ltb, Run, ok, Returns,
}
use native.Mathlib.Nat.{le_refl}
use gc.Object.{object_header, byte}
use gc.Chunk.{null, sizeof_chunk, chunk_header_size, chunk_min_size}
use gc.ChunkList.Layout.{Cell, Cells, extent, IsLayout, IsLayout-size-lt, Rewrites-IsLayout}
use gc.ChunkList.Find.{StandsAt, here, there, StandsAt-le}
use gc.ChunkList.Split.{cut, cut-split, cut-whole, resized, free_cell}
use gc.GlobalAllocator.{GlobalAllocator, increment_counters, try_allocate_large}
use gc.GlobalAllocator.Place.{
  fits, fits-le, fits-free, taken, behind, place, place-nil, place-none, place-fits, Outcome,
  allocate_loop-Outcome,
}

-- The large object space of the allocator is the chunks `cs`.
pub record HasLayout (s : GlobalAllocator) (cs : Cells) : Type 0 where
  pub layout : IsLayout s.large_chunk_list cs s.large_heap_start s.large_heap_stop
  pub extends : s.large_heap_start + s.large_heap_size ≡ s.large_heap_stop

-- The chunk at `q` is the mutator's, with room for an object of `n` bytes.
abbrev pub IsTaken : ℕ → ℕ → ℕ → ℕ → Cells → Type 0
IsTaken n atomic q p cs =
    (c : Cell) × StandsAt q c p cs
    × (c.allocated ≡ 1)
    × (n ≤ c.object.size)
    × (c.object.atomic ≡ byte atomic)

-- What first fit makes of the chunks: the one it gives was free and is now taken, and every chunk
-- that was allocated stands where it stood, unchanged.
pub record Placed (n atomic p : ℕ) (cs : Cells) (q : ℕ) (cs' : Cells) : Type 0 where
  pub taken_one : IsTaken n atomic q p cs'
  pub kept : (r : ℕ) (d : Cell) → StandsAt r d p cs → d.allocated ≢ 0 → StandsAt r d p cs'
  pub was_free : (d : Cell) → StandsAt q d p cs → d.allocated ≡ 0

abbrev pub ForSome : (ℕ → Cells → Type 0) → Option (ℕ × Cells) → Type 0
ForSome P none = Unit
ForSome P (some (q, cs)) = P q cs

module _ (n atomic : ℕ) where
  taken-cut :
      (p : ℕ) (c : Cell) (cs : Cells)
      → n ≤ c.object.size
      → IsTaken n atomic p p (taken atomic (cut c n cs))
  taken-cut p c cs h = elim (Bool-cases (ltb (c.object.size - n) chunk_min_size)) [
    | inl k ↦ rw (cut-whole c n cs (ground arith)) (_, here refl, refl, h, refl)
    | inr k ↦ rw (cut-split c n cs (ground arith)) (_, here refl, refl, le_refl n, refl)
  ]

  -- What stands behind a chunk still stands there when the chunk is cut.
  behind-cut :
      (r : ℕ) (d : Cell) (p : ℕ) (c : Cell) (cs : Cells)
      → n ≤ c.object.size
      → StandsAt r d (p + extent c) cs
      → StandsAt r d p (taken atomic (cut c n cs))
  behind-cut r d p c cs h at = elim (Bool-cases (ltb (c.object.size - n) chunk_min_size)) [
    | inl k ↦ rw (cut-whole c n cs (ground arith)) (there at)
    | inr k ↦
        let big : n + chunk_min_size ≤ c.object.size = ground arith in
        let e : p + extent c
            ≡ p
              + extent (resized c n)
              + extent (free_cell (c.object.size - n - chunk_header_size)) =
          omega arith in
        rw (cut-split c n cs big) (there (there (rw e at at)))
  ]

  kept-fit :
      (r : ℕ) (d : Cell) (p : ℕ) (c : Cell) (cs : Cells)
      → fits n c ≡ true
      → StandsAt r d p (c ∷ cs)
      → d.allocated ≢ 0
      → StandsAt r d p (taken atomic (cut c n cs))
  kept-fit r d p c cs k (here e) a = absurd (a (fits-free n d k))
  kept-fit r d p c cs k (there at) a = behind-cut r d p c cs (fits-le n c k) at

  was_free-fit :
      (q p : ℕ) (d c : Cell) (cs : Cells)
      → q ≡ p
      → fits n c ≡ true
      → StandsAt q d p (c ∷ cs)
      → d.allocated ≡ 0
  was_free-fit q p d c cs e k (here f) = fits-free n d k
  was_free-fit q p d c cs e k (there at) = absurd (omega (arith, StandsAt-le at))

  kept-behind :
      (p : ℕ) (c : Cell) (cs cs' : Cells)
      → ((r : ℕ) (d : Cell)
          → StandsAt r d (p + extent c) cs
          → d.allocated ≢ 0
          → StandsAt r d (p + extent c) cs')
      → (r : ℕ) (d : Cell) → StandsAt r d p (c ∷ cs)
      → d.allocated ≢ 0
      → StandsAt r d p (c ∷ cs')
  kept-behind p c cs cs' keep r d (here e) a = here e
  kept-behind p c cs cs' keep r d (there at) a = there (keep r d at a)

  was_free-behind :
      (q p : ℕ) (c : Cell) (cs : Cells) (d : Cell)
      → p + extent c ≤ q
      → ((d : Cell) → StandsAt q d (p + extent c) cs → d.allocated ≡ 0)
      → StandsAt q d p (c ∷ cs)
      → d.allocated ≡ 0
  was_free-behind q p c cs d far free_ (here e) = absurd (omega arith)
  was_free-behind q p c cs d far free_ (there at) = free_ d at

  behind-Placed :
      (p : ℕ) (c : Cell) (cs : Cells) (o : Option (ℕ × Cells))
      → ForSome (Placed n atomic (p + extent c) cs) o
      → ForSome (Placed n atomic p (c ∷ cs)) (behind c o)
  behind-Placed p c cs none w = tt
  behind-Placed p c cs (some (q, cs')) w =
      let (d, at, one, room, kind) = w.taken_one in
      record {
        taken_one = (d, there at, one, room, kind);
        kept = kept-behind p c cs cs' w.kept;
        was_free = λ d' at'. was_free-behind q p c cs d' (StandsAt-le at) w.was_free at';
      }

  pub place-Placed : (p : ℕ) (cs : Cells) → ForSome (Placed n atomic p cs) (place n atomic p cs)
  place-Placed p [] = rw (place-nil atomic n p) tt
  place-Placed p (c ∷ cs) = elim (Bool-cases (fits n c)) [
    | inl k ↦ rw (place-fits atomic n p c cs k) (record {
      taken_one = taken-cut p c cs (fits-le n c k);
      kept = λ r d at a. kept-fit r d p c cs k at a;
      was_free = λ d at. was_free-fit p p d c cs refl k at;
    })
    | inr k ↦
        rw (place-none atomic n p c cs k) (behind-Placed p c cs _ (place-Placed (p + extent c) cs))
  ]

-- The result of an attempt on a laid out space.
abbrev pub Attempt :
    GlobalAllocator → Cells → ℕ → ℕ → Option (ℕ × Cells) → Run (GlobalAllocator × ℕ) → Type 0
Attempt s cs size atomic none r = r ≡ ok (s, null)
Attempt s cs size atomic (some (q, cs')) r = Returns r λ t.
    (t.1 ≡ q + sizeof_chunk)
    × (t.0 ≡ record (increment_counters s size) { large_chunk_list = t.0.large_chunk_list })
    × HasLayout t.0 cs'

Attempt-of_Outcome :
    (s : GlobalAllocator) (cs : Cells) (size atomic : ℕ) (o : Option (ℕ × Cells))
    (r : Run (GlobalAllocator × ℕ))
    → HasLayout s cs
    → Outcome size atomic s.large_heap_stop s s.large_heap_start cs o r
    → Attempt s cs size atomic o r
unfolding increment_counters
Attempt-of_Outcome s cs size atomic none r w out = out
Attempt-of_Outcome s cs size atomic (some (q, cs')) r w (t, run, (e, f, rewrites)) = (
  t,
  run,
  (
    e,
    f,
    rw f (record { layout = Rewrites-IsLayout cs cs' w.layout rewrites; extends = w.extends }),
  ),
)

-- An attempt to allocate in a laid out large space ends, with fuel for one step more than there are
-- chunks, and fails no assertion, if the size with the object's header is less than 2 ^ 64. It is
-- first fit: it gives the address behind the header of the first free chunk with room, cut to size
-- and taken, leaves the space laid out and counts the bytes; it gives NULL and changes nothing if
-- no free chunk has room.
pub try_allocate_large-place :
    {s : GlobalAllocator} {cs : Cells} (fuel size atomic : ℕ)
    → HasLayout s cs
    → size + object_header < word_mod
    → length cs < fuel
    → Attempt s cs size atomic
        (place (size + object_header) atomic s.large_heap_start cs)
        (try_allocate_large fuel s size atomic)
unfolding try_allocate_large
try_allocate_large-place {s} {cs} fuel size atomic w fit h =
    let v = w.layout in
    Attempt-of_Outcome s cs size atomic _ _ w (
      simp v.first (
        allocate_loop-Outcome size atomic s.large_heap_stop fuel s s.large_heap_start cs null
          v.positive v.bounded (omega arith) refl fit (omega (arith, v.size, IsLayout-size-lt v))
          v.tiles v.last h))
