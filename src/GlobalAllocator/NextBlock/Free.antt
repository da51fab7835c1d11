-- ===== src/GlobalAllocator/NextBlock/Free.antt =====
-- `GC_GlobalAllocator_nextFreeBlock` hands out a block of the small object space.
use gc.Base.{
  ℕ, ◌+◌, ◌≤◌, ◌<◌, ◌≡◌, ◌≢◌, refl, sym, ap, subst, ◌/◌, ◌++◌, ◌⊎◌, inl, inr, true, false, List, [],
  ◌∷◌, arith, length, word_mod, ◌==◌, ==_lt, if◌then◌else◌, Run, ok, aborted, Returns, ◌>>=◌,
}
use gc.BlockList.{null, is_empty}
use gc.BlockList.Queue.{Fresh, shift-Holds, shift-empty}
use gc.Block.{block_size}
use gc.GlobalAllocator.{GlobalAllocator, Environment, grow_small, small_increment}
use gc.GlobalAllocator.TryCollect.{try_collect-cases}
use gc.GlobalAllocator.NextBlock.{
  shift_free, shift_or_abort, grow_if_empty, collect_or_grow, next_free_block,
}
use gc.GlobalAllocator.NextBlock.Pushed.{HasBlocks, addresses}
use gc.GlobalAllocator.NextBlock.Grow.{OverSmall, grown-length, grow_small-HasBlocks}

-- The first block of the free list `zs` of `s` is handed out: the list holds the others then, in
-- order, and nothing else has changed.
pub record Handed (s : GlobalAllocator) (zs : List ℕ) (t : GlobalAllocator × ℕ) : Type 0 where
  pub others : List ℕ
  pub taken : zs ≡ t.1 ∷ others
  pub same : t.0 ≡ record s { free_list = (t.0).free_list }
  pub not_null : t.1 ≢ null
  pub fresh : Fresh t.1 others
  pub blocks : HasBlocks t.0 others
  pub low : (t.0).small_heap_start ≤ t.1
  pub high : t.1 < (t.0).small_heap_stop

-- The collector returns from the state, and leaves the small object space in order.
pub record Recycles (env : Environment) (s : GlobalAllocator) : Type 0 where
  pub after : GlobalAllocator
  pub recycled : List ℕ
  pub runs : env.gc_collect s ≡ ok after
  pub blocks : HasBlocks after recycled

-- The free list that growth gives: the new blocks behind the others.
abbrev pub Grows : GlobalAllocator → List ℕ → GlobalAllocator → List ℕ → Type 0
Grows s xs s' zs =
    (grow_small s ≡ ok s')
    × (zs ≡ xs ++ addresses (small_increment s / block_size) s.small_heap_stop)

-- Where the free list comes from that hands out the block: it is the one at hand; or that one is
-- empty, and it is the one that the collector leaves, or that growth gives before or after.
pub data Supplied (env : Environment) (s : GlobalAllocator) (xs : List ℕ)
    : GlobalAllocator → List ℕ → Type 0 where
  at_hand : Supplied env s xs s xs
  grown :
      {s' : GlobalAllocator} {zs : List ℕ} → xs ≡ [] → Grows s [] s' zs → Supplied env s xs s' zs
  collected :
      {s' : GlobalAllocator} {zs : List ℕ}
      → xs ≡ []
      → env.gc_collect s ≡ ok s'
      → HasBlocks s' zs
      → Supplied env s xs s' zs
  collected_grown :
      {s' s'' : GlobalAllocator} {zs : List ℕ}
      → xs ≡ []
      → env.gc_collect s ≡ ok s'
      → HasBlocks s' []
      → Grows s' [] s'' zs
      → Supplied env s xs s'' zs

shift_free-empty : {s : GlobalAllocator} → HasBlocks s [] → shift_free s ≡ (s, null)
unfolding shift_free
shift_free-empty {s} w = rw (shift-empty s.blocks s.free_list w.holds) refl

shift_free-Handed :
    {s : GlobalAllocator} (x : ℕ) (xs : List ℕ)
    → HasBlocks s (x ∷ xs)
    → Handed s (x ∷ xs) (shift_free s)
unfolding shift_free
shift_free-Handed {s} x xs w =
    let small : length xs + 1 < word_mod = omega (arith, w.count, w.limited, w.within) in
    let (holds, e) = shift-Holds s.blocks s.free_list x xs w.holds small in
    record {
      others = xs;
      taken = ap (λ y. y ∷ xs) (sym e);
      same = refl;
      not_null = rw e w.holds.chain.1;
      fresh = rw e w.holds.chain.2;
      blocks = record {
        holds = holds;
        inside = w.inside.2;
        count = omega (arith, w.count);
        positive = w.positive;
        extends = w.extends;
        mapped = w.mapped;
        limited = w.limited;
        within = w.within;
        nonempty = w.nonempty;
      };
      low = rw e w.inside.0;
      high = rw e w.inside.1;
    }

-- A block of a free list that `Source` holds for.
abbrev pub From : (GlobalAllocator → List ℕ → Type 0) → GlobalAllocator × ℕ → Type 0
From Source t = (s : GlobalAllocator) × (zs : List ℕ) × Source s zs × Handed s zs t

-- The program stops, for the reason `F`, or a block of such a free list is handed out.
abbrev pub Hands : Type 0 → (GlobalAllocator → List ℕ → Type 0) → Run (GlobalAllocator × ℕ) → Type 0
Hands F Source r = (F × (r ≡ aborted)) ⊎ Returns r (From Source)

-- A block is not NULL, so the code returns it.
keep_block :
    (Source : GlobalAllocator → List ℕ → Type 0) {s : GlobalAllocator} (x : ℕ) (xs : List ℕ)
    (other : Run (GlobalAllocator × ℕ))
    → Source s (x ∷ xs)
    → HasBlocks s (x ∷ xs)
    → Returns (if (shift_free s).1 == null then other else ok (shift_free s)) (From Source)
keep_block Source {s} x xs other source w =
    let h = shift_free-Handed x xs w in
    (
      shift_free s,
      rw (==_lt (shift_free s).1 null (omega (arith, h.not_null))) refl,
      (s, x ∷ xs, source, h),
    )

-- A queue that is not empty gives a block.
shift_or_abort-Returns :
    (Source : GlobalAllocator → List ℕ → Type 0) {s : GlobalAllocator} (xs : List ℕ)
    → 0 < length xs
    → Source s xs
    → HasBlocks s xs
    → Returns (shift_or_abort s) (From Source)
unfolding shift_or_abort
shift_or_abort-Returns Source [] h source w = absurd (omega arith)
shift_or_abort-Returns Source (x ∷ xs) h source w = keep_block Source x xs aborted source w

grow_and_shift-Hands :
    (Source : GlobalAllocator → List ℕ → Type 0) {s : GlobalAllocator}
    → HasBlocks s []
    → ((s' : GlobalAllocator) (zs : List ℕ) → Grows s [] s' zs → Source s' zs)
    → Hands (OverSmall s) Source (grow_small s >>= λ t. shift_or_abort t)
grow_and_shift-Hands Source {s} w source = elim (grow_small-HasBlocks w) [
  | inl (over, e) ↦ inl (over, rw e refl)
  | inr (s', e, w') ↦
      inr (rw e (shift_or_abort-Returns Source _ (grown-length w) (source s' _ (e, refl)) w'))
]

is_empty-nil : {s : GlobalAllocator} → HasBlocks s [] → is_empty s.free_list ≡ true
unfolding is_empty
is_empty-nil w = simp w.holds.chain refl

is_empty-cons :
    {s : GlobalAllocator} {x : ℕ} {xs : List ℕ}
    → HasBlocks s (x ∷ xs)
    → is_empty s.free_list ≡ false
unfolding is_empty
is_empty-cons {s} w = ==_lt s.free_list.first null (omega (arith, w.holds.chain.0, w.holds.chain.1))

grow_if_empty-Hands :
    (Source : GlobalAllocator → List ℕ → Type 0) {s : GlobalAllocator} (xs : List ℕ)
    → HasBlocks s xs
    → Source s xs
    → (xs ≡ [] → (s' : GlobalAllocator) (zs : List ℕ) → Grows s [] s' zs → Source s' zs)
    → Hands (OverSmall s) Source (grow_if_empty s >>= λ t. shift_or_abort t)
unfolding grow_if_empty
grow_if_empty-Hands Source [] w source grows =
    rw (is_empty-nil w) (grow_and_shift-Hands Source w (grows refl))
grow_if_empty-Hands Source (x ∷ xs) w source grows =
    rw (is_empty-cons w) (inr (shift_or_abort-Returns Source (x ∷ xs) (omega arith) source w))

module _ (env : Environment) (fuel : ℕ) where
  -- The limit is passed, by the heap as it is or as the collector leaves it.
  abbrev pub Stops : GlobalAllocator → Type 0
  Stops s = (s' : GlobalAllocator) × ((s' ≡ s) ⊎ (env.gc_collect s ≡ ok s')) × OverSmall s'

  collect_or_grow-Hands :
      {s : GlobalAllocator}
      → Recycles env s
      → s.free_space_divisor ≢ 0
      → HasBlocks s []
      → Hands (Stops s) (Supplied env s []) (collect_or_grow env fuel s >>= λ t. shift_or_abort t)
  unfolding collect_or_grow
  collect_or_grow-Hands {s} gc h w = elim (try_collect-cases env fuel s h) [
    | inl e ↦ rw e (elim (grow_and_shift-Hands (Supplied env s []) w (λ s' zs g. grown refl g)) [
      | inl (over, stop) ↦ inl ((s, inl refl, over), stop)
      | inr r ↦ inr r
    ])
    | inr e ↦
        let ys = gc.recycled in
        let r =
          grow_if_empty-Hands (Supplied env s []) ys gc.blocks (collected refl gc.runs gc.blocks)
            (λ none_left s' zs g.
              collected_grown refl gc.runs (subst (HasBlocks gc.after) none_left gc.blocks) g) in
        rw (e, gc.runs)
          (elim r [
            | inl (over, stop) ↦ inl ((gc.after, inr refl, over), stop)
            | inr found ↦ inr found
          ])
  ]

  -- With the free list in order, `nextFreeBlock` returns its first block, not NULL and in the small
  -- space; the list holds exactly the others then, in order, and nothing else changes with that
  -- shift. If the list is empty, it is that of the heap that the collector leaves, or that growth
  -- gives, with all the new blocks in address order, before or behind a collection. The program
  -- stops only if growth of the small space would pass the memory limit, in the heap as it is or as
  -- the collector leaves it. The collector, if it is called, returns from the heap at hand with the
  -- free list in order; the divisor of the free space is not 0; the memory limit is below 2 ^ 46.
  pub next_free_block-Handed :
      {s : GlobalAllocator} (xs : List ℕ)
      → Recycles env s
      → s.free_space_divisor ≢ 0
      → HasBlocks s xs
      → Hands (Stops s) (Supplied env s xs) (next_free_block env fuel s)
  unfolding next_free_block
  next_free_block-Handed [] gc h w = rw (shift_free-empty w) (collect_or_grow-Hands gc h w)
  next_free_block-Handed {s} (x ∷ xs) gc h w =
      inr (keep_block (Supplied env s (x ∷ xs)) x xs _ at_hand w)
