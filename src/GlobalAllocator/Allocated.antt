-- ===== src/GlobalAllocator/Allocated.antt =====
-- What an allocation gives, and what it asks of the collector.
use gc.Base.{
  ℕ, ◌+◌, ◌≤◌, ◌≡◌, ◌≢◌, refl, sym, subst, ◌∙◌, inl, inr, Option, none, some, [], ◌∷◌, ◌++◌, arith,
  Bool-cases, ◌==◌, if◌then◌else◌, ==_lt, Run, ok, Returns, ◌>>=◌,
}
use gc.Object.{object_header}
use gc.Chunk.{null, sizeof_chunk}
use gc.ChunkList.Layout.{Cell, Cells, extent}
use gc.ChunkList.Find.{StandsAt, here, there}
use gc.ChunkList.Split.{free_cell}
use gc.GlobalAllocator.{GlobalAllocator, Environment}
use gc.GlobalAllocator.Place.{fits, behind, place, place-none, place-fits}
use gc.GlobalAllocator.Large.{HasLayout, IsTaken, Placed, ForSome, Attempt}
use gc.GlobalAllocator.Grow.{IsMapped}

-- What stands in some chunks stands there still when more follow.
pub StandsAt-append :
    (r : ℕ) (d : Cell) (p : ℕ) (cs ds : Cells) → StandsAt r d p cs → StandsAt r d p (cs ++ ds)
StandsAt-append r d p [] ds at = elim at [ ]
StandsAt-append r d p (c ∷ cs) ds (here e) = here e
StandsAt-append r d p (c ∷ cs) ds (there at) = there (StandsAt-append r d (p + extent c) cs ds at)

abbrev pub IsSome : Option (ℕ × Cells) → Type 0
IsSome none = ⊥
IsSome (some x) = Unit

behind-IsSome : (c : Cell) (o : Option (ℕ × Cells)) → IsSome o → IsSome (behind c o)
behind-IsSome c none h = elim h [ ]
behind-IsSome c (some (q, cs)) h = tt

pub place-append-IsSome :
    (n atomic p m : ℕ) (cs : Cells) → n ≤ m → IsSome (place n atomic p (cs ++ free_cell m ∷ []))
place-append-IsSome n atomic p m [] h =
    rw (place-fits atomic n p (free_cell m) [] (ground arith)) tt
place-append-IsSome n atomic p m (c ∷ cs) h = elim (Bool-cases (fits n c)) [
  | inl k ↦ rw (place-fits atomic n p c (cs ++ free_cell m ∷ []) k) tt
  | inr k ↦
      rw (place-none atomic n p c (cs ++ free_cell m ∷ []) k)
        (behind-IsSome c _ (place-append-IsSome n atomic (p + extent c) m cs h))
]

-- The chunk is the same but for its mark, which a collection may change.
abbrev pub SameButMark : Cell → Cell → Type 0
SameButMark d d' =
    (d'.allocated ≡ d.allocated)
    × (d'.object.size ≡ d.object.size)
    × (d'.object.atomic ≡ d.object.atomic)

-- The chunk stands at `r` among the chunks from `p` on, with any mark.
abbrev pub StandsStill : ℕ → Cell → ℕ → Cells → Type 0
StandsStill r d p cs = (d' : Cell) × SameButMark d d' × StandsAt r d' p cs

-- Every allocated chunk that `Live` holds for stands where it stood, with any mark.
abbrev pub Keeps : (ℕ → Type 0) → ℕ → Cells → Cells → Type 0
Keeps Live p cs cs' =
    (r : ℕ) (d : Cell) → StandsAt r d p cs → d.allocated ≢ 0 → Live r → StandsStill r d p cs'

Keeps-trans :
    (Live : ℕ → Type 0) (p : ℕ) (bs cs ds : Cells)
    → Keeps Live p bs cs
    → Keeps Live p cs ds
    → Keeps Live p bs ds
Keeps-trans Live p bs cs ds one two r d at a live =
    let (d', same, at') = one r d at a live in
    let (d'', same', at'') = two r d' at' (λ e. a (sym same.0 ∙ e)) live in
    (d'', (same'.0 ∙ same.0, same'.1 ∙ same.1, same'.2 ∙ same.2), at'')

-- The mutator has its memory: an allocated chunk of the space, with room for the object. The chunks
-- that `Live` holds for stand where they stood, but for their marks.
pub record Allocated (Live : ℕ → Type 0) (s : GlobalAllocator) (cs : Cells) (n atomic : ℕ)
    (t : GlobalAllocator × ℕ) : Type 0 where
  pub at : ℕ
  pub after : Cells
  pub pointer : t.1 ≡ at + sizeof_chunk
  pub layout : HasLayout t.0 after
  pub taken_one : IsTaken n atomic at s.large_heap_start after
  pub kept : Keeps Live s.large_heap_start cs after

-- The collector returns from the state, and leaves a laid out space of the same start in which the
-- chunks that `Live` holds for stand where they stood, but for their marks.
pub record Collects (env : Environment) (Live : ℕ → Type 0) (s : GlobalAllocator) (cs : Cells)
    : Type 0 where
  pub after : GlobalAllocator
  pub chunks : Cells
  pub runs : env.gc_collect s ≡ ok after
  pub layout : HasLayout after chunks
  pub mapped : IsMapped after
  pub same_start : after.large_heap_start ≡ s.large_heap_start
  pub keeps : Keeps Live s.large_heap_start cs chunks

module _ (Live : ℕ → Type 0) where
  -- An attempt that finds a chunk.
  pub Attempt-Allocated :
      {s : GlobalAllocator} {cs : Cells} (n atomic q : ℕ) (cs' : Cells)
      {r : Run (GlobalAllocator × ℕ)}
      → Placed (n + object_header) atomic s.large_heap_start cs q cs'
      → Attempt s cs n atomic (some (q, cs')) r
      → Returns r (Allocated Live s cs (n + object_header) atomic)
  Attempt-Allocated n atomic q cs' placed (t, run, (e, f, w)) = (
    t,
    run,
    record {
      at = q;
      after = cs';
      pointer = e;
      layout = w;
      taken_one = placed.taken_one;
      kept = λ r d at a live. (d, (refl, refl, refl), placed.kept r d at a);
    },
  )

  -- It is no less when the chunks were once others that kept the live ones.
  pub Allocated-later :
      {s s' : GlobalAllocator} {cs cs' : Cells} {n atomic : ℕ} {r : Run (GlobalAllocator × ℕ)}
      → s'.large_heap_start ≡ s.large_heap_start
      → Keeps Live s.large_heap_start cs cs'
      → Returns r (Allocated Live s' cs' n atomic)
      → Returns r (Allocated Live s cs n atomic)
  Allocated-later {s} {s'} {cs} {cs'} {n} {atomic} e keep (t, run, w) = (
    t,
    run,
    record {
      at = w.at;
      after = w.after;
      pointer = w.pointer;
      layout = w.layout;
      taken_one = simp (sym e) w.taken_one;
      kept =
          Keeps-trans Live s.large_heap_start cs cs' w.after keep
            (subst (λ p. Keeps Live p cs' w.after) e w.kept);
    },
  )

  pub Attempt-of_IsSome :
      {s : GlobalAllocator} {cs : Cells} (n atomic : ℕ) (o : Option (ℕ × Cells))
      {r : Run (GlobalAllocator × ℕ)}
      → IsSome o
      → ForSome (Placed (n + object_header) atomic s.large_heap_start cs) o
      → Attempt s cs n atomic o r
      → Returns r (Allocated Live s cs (n + object_header) atomic)
  Attempt-of_IsSome n atomic none h placed t = elim h [ ]
  Attempt-of_IsSome n atomic (some (q, cs')) h placed t = Attempt-Allocated n atomic q cs' placed t

  -- A pointer to memory is not NULL, so the code returns it.
  pub keep_pointer :
      {s : GlobalAllocator} {cs : Cells} {n atomic : ℕ} {r : Run (GlobalAllocator × ℕ)}
      (other : GlobalAllocator × ℕ → Run (GlobalAllocator × ℕ))
      → Returns r (Allocated Live s cs n atomic)
      → Returns (r >>= λ t. if t.1 == null then other t else ok t) (Allocated Live s cs n atomic)
  keep_pointer other (t, run, w) =
      (t, rw (run, w.pointer, ==_lt (w.at + sizeof_chunk) null (omega arith)) refl, w)
