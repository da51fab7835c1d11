-- ===== src/ChunkList/Sweep/Collected.antt =====
-- What the sweep means for the chunks: the marked ones survive, all else is free and merged.
use gc.Base.{
  ℕ, ◌+◌, ◌^◌, ◌<◌, ◌≡◌, refl, ◌⊎◌, inl, inr, true, false, [], ◌∷◌, arith, length, Bool-cases,
  Returns,
}
use gc.ChunkList.{ChunkList, sweep}
use gc.ChunkList.Layout.{Cell, Cells, extent, IsLayout}
use gc.ChunkList.Find.{StandsAt, here, there}
use gc.ChunkList.Split.{resized}
use gc.ChunkList.Sweep.{marked, freed, join, swept, last_extent}
use gc.ChunkList.Sweep.Loop.{sweep-swept}

-- No two neighbours are both unmarked: all that is free is as large as it can be.
abbrev pub Coalesced : Cells → Type 0
Coalesced [] = Unit
Coalesced (c ∷ []) = Unit
Coalesced (c ∷ d ∷ ds) = ((marked c ≡ true) ⊎ (marked d ≡ true)) × Coalesced (d ∷ ds)

-- The chunks `cs'` from `p` on are what a sweep is to leave of the chunks `cs`.
pub record Collected (p : ℕ) (cs cs' : Cells) : Type 0 where
  pub kept : (q : ℕ) (d : Cell) → StandsAt q d p cs → marked d ≡ true → StandsAt q d p cs'
  pub only :
      (q : ℕ) (d : Cell)
      → StandsAt q d p cs'
      → ((marked d ≡ true) × StandsAt q d p cs) ⊎ (d.allocated ≡ 0)
  pub coalesced : Coalesced cs'

-- Past a merged chunk stands what stood past the two.
merged_end :
    (p : ℕ) (c e : Cell)
    → p + extent c + extent e ≡ p + extent (freed (resized c (c.object.size + extent e)))
merged_end p c e = omega arith

past_unmarked :
    (q p : ℕ) (d e : Cell) (ds : Cells)
    → marked e ≡ false
    → marked d ≡ true
    → StandsAt q d p (e ∷ ds)
    → StandsAt q d (p + extent e) ds
past_unmarked q p d e ds u m (here h) = ground arith
past_unmarked q p d e ds u m (there at) = at

free_or_past :
    (q p : ℕ) (d x : Cell) (ds : Cells)
    → StandsAt q d p (freed x ∷ ds)
    → (d.allocated ≡ 0) ⊎ StandsAt q d (p + extent x) ds
free_or_past q p d x ds (here h) = inl refl
free_or_past q p d x ds (there at) = inr at

kept-join :
    (q p : ℕ) (c d : Cell) (ds : Cells)
    → StandsAt q d (p + extent c) ds
    → marked d ≡ true
    → StandsAt q d p (join c ds)
unfolding join
kept-join q p c d [] at m = elim at [ ]
kept-join q p c d (e ∷ ds) at m = elim (Bool-cases (marked e)) [
  | inl k ↦ rw k (there at)
  | inr k ↦
      let far = past_unmarked q (p + extent c) d e ds k m at in
      rw k (there (rw (merged_end p c e) at far))
]

only-join :
    (q p : ℕ) (c d : Cell) (ds : Cells)
    → StandsAt q d p (join c ds)
    → (d.allocated ≡ 0) ⊎ StandsAt q d (p + extent c) ds
unfolding join
only-join q p c d [] at = free_or_past q p d c [] at
only-join q p c d (e ∷ ds) at = elim (Bool-cases (marked e)) [
  | inl k ↦ free_or_past q p d c (e ∷ ds) (rw k at at)
  | inr k ↦ elim (free_or_past q p d (resized c (c.object.size + extent e)) ds (rw k at at)) [
    | inl h ↦ inl h
    | inr far ↦ inr (there (rw (merged_end p c e) far))
  ]
]

Coalesced-merged :
    (c e : Cell) (ds : Cells) → marked e ≡ false → Coalesced (e ∷ ds) → Coalesced (c ∷ ds)
Coalesced-merged c e [] k h = tt
Coalesced-merged c e (f ∷ ds) k (inl m, h) = ground arith
Coalesced-merged c e (f ∷ ds) k (inr m, h) = (inr m, h)

Coalesced-join : (c : Cell) (ds : Cells) → Coalesced ds → Coalesced (join c ds)
unfolding join
Coalesced-join c [] h = tt
Coalesced-join c (e ∷ ds) h = elim (Bool-cases (marked e)) [
  | inl k ↦ rw k (inr k, h)
  | inr k ↦ rw k (Coalesced-merged (freed (resized c (c.object.size + extent e))) e ds k h)
]

swept-kept :
    (q p : ℕ) (d : Cell) (cs : Cells)
    → StandsAt q d p cs
    → marked d ≡ true
    → StandsAt q d p (swept cs)
unfolding swept
swept-kept q p d [] at m = elim at [ ]
swept-kept q p d (c ∷ cs) (here h) m = rw m (here h)
swept-kept q p d (c ∷ cs) (there at) m =
    let rest = swept-kept q (p + extent c) d cs at m in
    elim (Bool-cases (marked c)) [
      | inl k ↦ rw k (there rest)
      | inr k ↦ rw k (kept-join q p c d (swept cs) rest m)
    ]

only-behind :
    (q p : ℕ) (c d : Cell) (cs : Cells)
    → ((marked d ≡ true) × StandsAt q d (p + extent c) cs) ⊎ (d.allocated ≡ 0)
    → ((marked d ≡ true) × StandsAt q d p (c ∷ cs)) ⊎ (d.allocated ≡ 0)
only-behind q p c d cs (inl (m, at)) = inl (m, there at)
only-behind q p c d cs (inr h) = inr h

only-marked :
    (q p : ℕ) (c d : Cell) (cs ds : Cells)
    → marked c ≡ true
    → (StandsAt q d (p + extent c) ds
        → ((marked d ≡ true) × StandsAt q d (p + extent c) cs) ⊎ (d.allocated ≡ 0))
    → StandsAt q d p (c ∷ ds)
    → ((marked d ≡ true) × StandsAt q d p (c ∷ cs)) ⊎ (d.allocated ≡ 0)
only-marked q p c d cs ds k rest (here h) = inl (k, here h)
only-marked q p c d cs ds k rest (there at) = only-behind q p c d cs (rest at)

swept-only :
    (q p : ℕ) (d : Cell) (cs : Cells)
    → StandsAt q d p (swept cs)
    → ((marked d ≡ true) × StandsAt q d p cs) ⊎ (d.allocated ≡ 0)
unfolding swept
swept-only q p d [] at = elim at [ ]
swept-only q p d (c ∷ cs) at =
    let rest = swept-only q (p + extent c) d cs in
    elim (Bool-cases (marked c)) [
      | inl k ↦ only-marked q p c d cs (swept cs) k rest (rw k at at)
      | inr k ↦ elim (only-join q p c d (swept cs) (rw k at at)) [
        | inl h ↦ inr h
        | inr far ↦ only-behind q p c d cs (rest far)
      ]
    ]

Coalesced-swept : (cs : Cells) → Coalesced (swept cs)
unfolding swept
Coalesced-swept [] = tt
Coalesced-swept (c ∷ cs) = elim (Bool-cases (marked c)) [
  | inl k ↦ rw k (coalesced-behind c (swept cs) k (Coalesced-swept cs))
  | inr k ↦ rw k (Coalesced-join c (swept cs) (Coalesced-swept cs))
]
  where
    coalesced-behind : (c : Cell) (ds : Cells) → marked c ≡ true → Coalesced ds → Coalesced (c ∷ ds)
    coalesced-behind c [] k h = tt
    coalesced-behind c (d ∷ ds) k h = (inl k, h)

-- The sweep of a laid out list ends, with fuel for one step more than there are chunks, and fails
-- no assertion. It leaves a laid out list from the same start to the same stop in which every
-- marked chunk stands where it stood, unchanged; every other chunk that now stands there is free;
-- and no two neighbours are both unmarked. An `int` has to hold the size of the last chunk.
pub sweep-Collected :
    {s : ChunkList} {cs : Cells} {start stop : ℕ} (fuel : ℕ)
    → IsLayout s cs start stop
    → last_extent 0 cs < 2 ^ 31
    → length cs < fuel
    → Returns
        (sweep fuel s)
        λ s'. (cs' : Cells) × IsLayout s' cs' start stop × Collected start cs cs'
sweep-Collected {s} {cs} {start} {stop} fuel w int_size h =
    let (s', run, w') = sweep-swept fuel w int_size h in
    (
      s',
      run,
      (
        swept cs,
        w',
        record {
          kept = λ q d at m. swept-kept q start d cs at m;
          only = λ q d at. swept-only q start d cs at;
          coalesced = Coalesced-swept cs;
        },
      ),
    )
