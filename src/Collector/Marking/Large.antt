-- ===== src/Collector/Marking/Large.antt =====
-- The marks of the large object space: what marking one chunk changes in the memory.
use gc.Base.{
  ℕ, suc, ◌+◌, ◌≤◌, ◌<◌, ◌≡◌, ◌≢◌, refl, sym, ap, ◌∙◌, inl, inr, Bool, true, false, ◌||◌, ◌==◌,
  ==_iff, ==_refl, if◌then◌else◌, Option, none, some, [], ◌∷◌, arith, length, Bool-cases,
}
use gc.Object
use gc.Object.{Object, object_header}
use gc.Chunk
use gc.Chunk.{Chunk, Chunks, write, write_self, write_ne, chunk_header_size, sizeof_chunk}
use gc.ChunkList.Layout.{Cell, Cells, extent, head_at, last_from, Tiles}
use gc.ChunkList.Find.{StandsAt, here, there, StandsAt-le}
use gc.ChunkList.Sweep.{last_extent}
use gc.Collector.Marking.{Region}

-- The memory holds the chunks `cs` from `p` to `stop`, with any marks.
abbrev pub Shaped : Chunks → ℕ → Cells → ℕ → Type 0
Shaped m p [] stop = p ≡ stop
Shaped m p (c ∷ cs) stop =
    ((m p).next ≡ head_at cs (p + extent c))
    × ((m p).allocated ≡ c.allocated)
    × ((m p).object.size ≡ c.object.size)
    × ((m p).object.atomic ≡ c.object.atomic)
    × (object_header ≤ c.object.size)
    × Shaped m (p + extent c) cs stop

-- The chunks with the marks that the memory has.
abbrev pub now : Chunks → ℕ → Cells → Cells
now m p [] = []
now m p (c ∷ cs) =
    record c { object = record (c.object) { marked = (m p).object.marked } }
    ∷ now m (p + extent c) cs

-- Whether one of the chunks stands at `q` and is marked.
abbrev pub marked_in : Chunks → ℕ → ℕ → Cells → Bool
marked_in m q p [] = false
marked_in m q p (c ∷ cs) =
    if p == q then Object.is_marked (m p).object else marked_in m q (p + extent c) cs

abbrev pub not_marked : Chunks → ℕ → Cells → ℕ
not_marked m p [] = 0
not_marked m p (c ∷ cs) =
    (if Object.is_marked (m p).object then 0 else 1) + not_marked m (p + extent c) cs

-- What is scanned in the object of the chunk at `q`, if there is one and it may hold pointers.
abbrev pub region_of : ℕ → Cell → Option Region
region_of p c = if c.object.atomic == 0 then some (p + sizeof_chunk, p + extent c) else none

abbrev pub region_in : ℕ → ℕ → Cells → Option Region
region_in q p [] = none
region_in q p (c ∷ cs) = if p == q then region_of p c else region_in q (p + extent c) cs

abbrev pub marking : Chunks → ℕ → Chunks
marking m q = write m q (Chunk.mark (m q))

pub head_at-now : (m : Chunks) (cs : Cells) (p r : ℕ) → head_at (now m r cs) p ≡ head_at cs p
head_at-now m [] p r = refl
head_at-now m (c ∷ cs) p r = refl

pub length-now : (m : Chunks) (p : ℕ) (cs : Cells) → length (now m p cs) ≡ length cs
length-now m p [] = refl
length-now m p (c ∷ cs) = ap suc (length-now m (p + extent c) cs)

pub Shaped-Tiles :
    (m : Chunks) (p : ℕ) (cs : Cells) (stop : ℕ) → Shaped m p cs stop → Tiles m p (now m p cs) stop
Shaped-Tiles m p [] stop e = e
Shaped-Tiles m p (c ∷ cs) stop (next, allocated, size, atomic, room, rest) =
    let linked_on = next ∙ sym (head_at-now m cs (p + extent c) (p + extent c)) in
    (
      λ i. record {
        next = linked_on i;
        allocated = allocated i;
        object = record { size = size i; marked = (m p).object.marked; atomic = atomic i };
      },
      room,
      Shaped-Tiles m (p + extent c) cs stop rest,
    )

marking_other : (m : Chunks) (q p : ℕ) → p ≢ q → marking m q p ≡ m p
marking_other m q p h = write_ne m q _ p h

-- Marking changes a mark, and nothing else anywhere.
pub marking_fields :
    (m : Chunks) (q p : ℕ)
    → ((marking m q p).next ≡ (m p).next)
      × ((marking m q p).allocated ≡ (m p).allocated)
      × ((marking m q p).object.size ≡ (m p).object.size)
      × ((marking m q p).object.atomic ≡ (m p).object.atomic)
unfolding write Chunk.mark
marking_fields m q p = elim (Bool-cases (p == q)) [
  | inl same ↦ let e : p ≡ q = (==_iff p q).0 same in rw (same, e) (refl, refl, refl, refl)
  | inr other ↦ rw other (refl, refl, refl, refl)
]

pub Shaped-marking :
    (m : Chunks) (q p : ℕ) (cs : Cells) (stop : ℕ)
    → Shaped m p cs stop
    → Shaped (marking m q) p cs stop
Shaped-marking m q p [] stop e = e
Shaped-marking m q p (c ∷ cs) stop (next, allocated, size, atomic, room, rest) =
    let same = marking_fields m q p in
    (
      same.0 ∙ next,
      same.1 ∙ allocated,
      same.2 ∙ size,
      same.3 ∙ atomic,
      room,
      Shaped-marking m q (p + extent c) cs stop rest,
    )

not_marked-frame :
    (m : Chunks) (q p : ℕ) (cs : Cells) → q < p → not_marked (marking m q) p cs ≡ not_marked m p cs
not_marked-frame m q p [] h = refl
not_marked-frame m q p (c ∷ cs) h =
    rw (marking_other m q p (omega arith), not_marked-frame m q (p + extent c) cs (omega arith))
      refl

marked_in-frame :
    (m : Chunks) (q x p : ℕ) (cs : Cells)
    → q < p
    → marked_in (marking m q) x p cs ≡ marked_in m x p cs
marked_in-frame m q x p [] h = refl
marked_in-frame m q x p (c ∷ cs) h =
    rw (marking_other m q p (omega arith), marked_in-frame m q x (p + extent c) cs (omega arith))
      refl

pub Shaped-le : (m : Chunks) (p : ℕ) (cs : Cells) (stop : ℕ) → Shaped m p cs stop → p ≤ stop
Shaped-le m p [] stop e = omega arith
Shaped-le m p (c ∷ cs) stop shaped = omega (arith, Shaped-le m (p + extent c) cs stop shaped.5)

pub ==_gt : (a b : ℕ) → a < b → (a == b) ≡ false
==_gt a b h = ground arith

pub ==_flip : (a b : ℕ) → (a == b) ≡ false → (b == a) ≡ false
==_flip a b h = ground arith

pub is_marked-mark : (c : Chunk) → Object.is_marked (Chunk.mark c).object ≡ true
unfolding Object.is_marked Chunk.mark
is_marked-mark c = refl

pub region_in-at :
    (q : ℕ) (d : Cell) (p : ℕ) (cs : Cells) → StandsAt q d p cs → region_in q p cs ≡ region_of q d
region_in-at q d p [] at = elim at [ ]
region_in-at q d p (c ∷ cs) (here e) = rw (e, ==_refl q) refl
region_in-at q d p (c ∷ cs) (there at) =
    rw (==_gt p q (omega (arith, StandsAt-le at))) (region_in-at q d (p + extent c) cs at)

module _ (m : Chunks) (q : ℕ) (d : Cell) where
  pub marked_in-at :
      (p : ℕ) (cs : Cells) → StandsAt q d p cs → marked_in m q p cs ≡ Object.is_marked (m q).object
  marked_in-at p [] at = elim at [ ]
  marked_in-at p (c ∷ cs) (here e) = rw (e, ==_refl q) refl
  marked_in-at p (c ∷ cs) (there at) =
      rw (==_gt p q (omega (arith, StandsAt-le at))) (marked_in-at (p + extent c) cs at)

  pub not_marked-marking :
      (p : ℕ) (cs : Cells)
      → StandsAt q d p cs
      → Object.is_marked (m q).object ≡ false
      → not_marked (marking m q) p cs + 1 ≡ not_marked m p cs
  not_marked-marking p [] at un = elim at [ ]
  not_marked-marking p (c ∷ cs) (here e) un =
      rw
        (
          e,
          write_self m q (Chunk.mark (m q)),
          is_marked-mark (m q),
          un,
          not_marked-frame m q (q + extent c) cs (omega arith),
        )
        (omega arith)
  not_marked-marking p (c ∷ cs) (there at) un =
      let le = StandsAt-le at in
      rw (marking_other m q p (omega arith))
        (omega (arith, not_marked-marking (p + extent c) cs at un))

  pub marked_in-marking :
      (x p : ℕ) (cs : Cells)
      → StandsAt q d p cs
      → marked_in (marking m q) x p cs ≡ ((x == q) || marked_in m x p cs)
  marked_in-marking x p [] at = elim at [ ]
  marked_in-marking x p (c ∷ cs) (here e) = elim (Bool-cases (q == x)) [
    | inl same ↦
        let back = (==_iff x q).1 (sym ((==_iff q x).0 same)) in
        rw (e, same, back, write_self m q (Chunk.mark (m q)), is_marked-mark (m q)) refl
    | inr other ↦
        rw (e, other, ==_flip q x other, marked_in-frame m q x (q + extent c) cs (omega arith)) refl
  ]
  marked_in-marking x p (c ∷ cs) (there at) =
      let le = StandsAt-le at in
      elim (Bool-cases (p == x)) [
        | inl same ↦
            let ex = (==_iff p x).0 same in
            rw (same, marking_other m q p (omega arith), ==_gt x q (omega arith)) refl
        | inr other ↦ rw other (marked_in-marking x (p + extent c) cs at)
      ]

  pub Shaped-at :
      (p stop : ℕ) (cs : Cells)
      → StandsAt q d p cs
      → Shaped m p cs stop
      → ((m q).allocated ≡ d.allocated)
        × ((m q).object.size ≡ d.object.size)
        × ((m q).object.atomic ≡ d.object.atomic)
        × (q + extent d ≤ stop)
  Shaped-at p stop [] at shaped = elim at [ ]
  Shaped-at p stop (c ∷ cs) (here e) (next, allocated, size, atomic, room, rest) = (
    ap (λ x. (m x).allocated) (sym e) ∙ allocated,
    ap (λ x. (m x).object.size) (sym e) ∙ size,
    ap (λ x. (m x).object.atomic) (sym e) ∙ atomic,
    omega (arith, Shaped-le m (p + extent c) cs stop rest),
  )
  Shaped-at p stop (c ∷ cs) (there at) shaped = Shaped-at (p + extent c) stop cs at shaped.5

-- What stands in the chunks stands in them with the marks of the moment, and the other way round.
pub StandsAt-now :
    (m : Chunks) (q : ℕ) (d : Cell) (p : ℕ) (cs : Cells)
    → StandsAt q d p cs
    → StandsAt q
        (record d { object = record (d.object) { marked = (m q).object.marked } })
        p
        (now m p cs)
StandsAt-now m q d p [] at = elim at [ ]
StandsAt-now m q d p (c ∷ cs) (here e) = rw e (here refl)
StandsAt-now m q d p (c ∷ cs) (there at) = there (StandsAt-now m q d (p + extent c) cs at)

pub now-StandsAt :
    (m : Chunks) (q : ℕ) (d : Cell) (p : ℕ) (cs : Cells)
    → StandsAt q d p (now m p cs)
    → (c : Cell) × StandsAt q c p cs
      × (extent c ≡ extent d)
      × (d.object.marked ≡ (m q).object.marked)
now-StandsAt m q d p [] at = elim at [ ]
now-StandsAt m q d p (c ∷ cs) (here e) = (c, here e, refl, ap (λ x. (m x).object.marked) e)
now-StandsAt m q d p (c ∷ cs) (there at) =
    let (d', at', e, same) = now-StandsAt m q d (p + extent c) cs at in (d', there at', e, same)

pub last_from-now :
    (m : Chunks) (before p : ℕ) (cs : Cells)
    → last_from before (now m p cs) p ≡ last_from before cs p
last_from-now m before p [] = refl
last_from-now m before p (c ∷ cs) = last_from-now m p (p + extent c) cs

pub last_extent-now :
    (m : Chunks) (before p : ℕ) (cs : Cells)
    → last_extent before (now m p cs) ≡ last_extent before cs
last_extent-now m before p [] = refl
last_extent-now m before p (c ∷ cs) = last_extent-now m (extent c) (p + extent c) cs
