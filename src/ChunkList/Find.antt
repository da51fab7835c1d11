-- ===== src/ChunkList/Find.antt =====
-- `ChunkList_find` and `ChunkList_validate` against the layout.
use gc.Base.{
  ℕ, zero, suc, ◌+◌, ◌≤◌, ◌<◌, ◌≡◌, ◌↔◌, ◌⊎◌, inl, inr, refl, true, [], ◌∷◌, arith, length,
  Bool-cases, word_mod, add64-add, Returns,
}
use gc.Object.{object_header}
use gc.Chunk
use gc.Chunk.{Chunk, Chunks, null, sizeof_chunk, chunk_header_size}
use gc.ChunkList.{ChunkList, find_loop, find}
use gc.ChunkList.Layout.{Cell, Cells, extent, linked, head_at, Tiles, Tiles-total, IsLayout}

-- The chunk `c` stands at address `q`, among chunks that begin at `p`.
pub data StandsAt (q : ℕ) (c : Cell) : ℕ → Cells → Type 0 where
  here : {p : ℕ} {cs : Cells} → p ≡ q → StandsAt q c p (c ∷ cs)
  there : {p : ℕ} {d : Cell} {cs : Cells} → StandsAt q c (p + extent d) cs → StandsAt q c p (d ∷ cs)

-- The pointer lies in the mutator's part of the chunk `c` at `q`.
abbrev pub Owns : ℕ → Cell → ℕ → Type 0
Owns q c pointer = (q + sizeof_chunk ≤ pointer) × (pointer < q + extent c)

-- What the search comes to: a chunk that owns the pointer, or NULL where none does.
abbrev pub Found : ℕ → Cells → ℕ → ℕ → Type 0
Found p cs pointer r =
    ((c : Cell) × StandsAt r c p cs × Owns r c pointer)
    ⊎ ((r ≡ null) × ((q : ℕ) (c : Cell) → StandsAt q c p cs → ¬ Owns q c pointer))

contains-Owns :
    (p : ℕ) (c : Cell) (next pointer : ℕ)
    → object_header ≤ c.object.size
    → p + extent c < word_mod
    → (Chunk.contains p (linked c next) pointer ≡ true) ↔ Owns p c pointer
unfolding Chunk.contains Chunk.mutator_address
contains-Owns p c next pointer h k =
    rw
      (
        add64-add p sizeof_chunk (omega arith),
        add64-add p chunk_header_size (omega arith),
        add64-add (p + chunk_header_size) c.object.size (omega arith),
      )
      (ground arith)

apart :
    {p pointer : ℕ} {d : Cell} {cs : Cells}
    → ¬ Owns p d pointer
    → ((q : ℕ) (c : Cell) → StandsAt q c (p + extent d) cs → ¬ Owns q c pointer)
    → (q : ℕ) (c : Cell) → StandsAt q c p (d ∷ cs)
    → ¬ Owns q c pointer
apart miss rest q c (here e) own = miss (omega arith)
apart miss rest q c (there at) own = rest q c at own

Found-cons :
    (p : ℕ) (d : Cell) (cs : Cells) (pointer r : ℕ)
    → ¬ Owns p d pointer
    → Found (p + extent d) cs pointer r
    → Found p (d ∷ cs) pointer r
Found-cons p d cs pointer r miss (inl (c, at, own)) = inl (c, there at, own)
Found-cons p d cs pointer r miss (inr (e, rest)) = inr (e, apart miss rest)

pub find_loop-Found :
    (fuel : ℕ) (m : Chunks) (p : ℕ) (cs : Cells) (stop pointer : ℕ)
    → 0 < p
    → stop < word_mod
    → Tiles m p cs stop
    → length cs < fuel
    → Returns (find_loop fuel m (head_at cs p) pointer) (Found p cs pointer)
unfolding find_loop
find_loop-Found zero m p cs stop pointer pos bound t h = absurd (omega arith)
find_loop-Found (suc fuel) m p [] stop pointer pos bound t h =
    (null, refl, inr (refl, λ q c at. elim at [ ]))
find_loop-Found (suc fuel) m p (c ∷ cs) stop pointer pos bound t h =
    let owns =
      contains-Owns p c (head_at cs (p + extent c)) pointer t.1
        (omega (arith, Tiles-total m (p + extent c) cs stop t.2)) in
    let (r, run, found) =
      find_loop-Found fuel m (p + extent c) cs stop pointer (omega arith) bound t.2 (omega arith) in
    elim (Bool-cases (Chunk.contains p (m p) pointer)) [
      | inl hit ↦ (p, ground arith, inl (c, here refl, owns.0 (rw t.0 at hit)))
      | inr miss ↦ (
        r,
        ground (arith, t.0, run),
        Found-cons p c cs pointer r (let no = rw t.0 at miss in λ own. cc (owns.1 own)) found,
      )
    ]

-- On a laid out list the search ends, with fuel for one step more than there are chunks. It returns
-- the address of a chunk whose mutator part holds the pointer, or NULL, and NULL only if no chunk
-- holds the pointer.
pub find-Found :
    {s : ChunkList} {cs : Cells} {start stop : ℕ} (fuel pointer : ℕ)
    → IsLayout s cs start stop
    → length cs < fuel
    → Returns (find fuel s pointer) (Found start cs pointer)
unfolding find
find-Found {s} {cs} {start} {stop} fuel pointer w h =
    rw w.first (find_loop-Found fuel s.chunks start cs stop pointer w.positive w.bounded w.tiles h)

pub StandsAt-le : {q : ℕ} {c : Cell} {p : ℕ} {cs : Cells} → StandsAt q c p cs → p ≤ q
StandsAt-le (here e) = omega arith
StandsAt-le (there at) = omega (arith, StandsAt-le at)

-- No two chunks own one pointer: the chunk that a search finds is the only one.
pub owner_unique :
    {q r : ℕ} {c d : Cell} {p : ℕ} {cs : Cells} {pointer : ℕ}
    → StandsAt q c p cs
    → StandsAt r d p cs
    → Owns q c pointer
    → Owns r d pointer
    → q ≡ r
owner_unique (here e) (here f) own own' = omega arith
owner_unique (here e) (there at) own own' = absurd (omega (arith, StandsAt-le at))
owner_unique (there at) (here f) own own' = absurd (omega (arith, StandsAt-le at))
owner_unique (there at) (there at') own own' = owner_unique at at' own own'
