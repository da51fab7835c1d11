-- ===== src/Collector/Marking.antt =====
-- The marking as a search of a graph, for every heap that can say which object a pointer points into.
-- The loops of `GC_Collector_mark` are proved against this interface.
pub mod Loop
pub mod Correct
pub mod Large
pub mod LargeSpace
pub mod LargeGraph
pub mod Small
pub mod Spaces
pub mod SmallShield
pub mod SmallMark
pub mod SmallSearch
pub mod SmallLines
pub mod Both
pub mod SmallUnmark
pub mod SmallBlank
pub mod Swept
pub mod Collected
pub mod Reclaim
pub mod Whole
use gc.Base.{
  ℕ, zero, suc, ◌+◌, ◌*◌, ◌^◌, ◌≤◌, ◌<◌, ◌≡◌, ◌⊎◌, inl, inr, Bool, true, false, ◌||◌, ◌==◌, Option,
  none, some, List, [], ◌∷◌, word_mod, Run, Returns,
}
use gc.Stack
use gc.Stack.{Stack}
use gc.LineHeader.{word_size}
use gc.GlobalAllocator.{GlobalAllocator}
use gc.Collector.{visit}
use gc.Collector.State.{Collector}

-- A region of memory: its two ends.
abbrev pub Region : Type 0
Region = ℕ × ℕ

-- The region of an object that is to be scanned goes on the stack.
abbrev pub push_region : Option Region → Stack → Stack
push_region none s = s
push_region (some (top, bottom)) s = Stack.push s top bottom

-- What a visit of a pointer comes to: nothing, if no object that the pointer points into is left to
-- mark, or one more object marked and put on the stack.
pub data Visited (is_marked : GlobalAllocator → ℕ → Bool) (Points : ℕ → ℕ → Type 0)
    (region : ℕ → Option Region) (unmarked : GlobalAllocator → ℕ) (IsOk : GlobalAllocator → Type 0)
    (c : Collector) (pointer : ℕ) (c' : Collector) : Type 0 where
  nothing :
      c' ≡ c
      → ((q : ℕ) → Points q pointer → is_marked c.global_allocator q ≡ true)
      → Visited is_marked Points region unmarked IsOk c pointer c'
  marks :
      (q : ℕ)
      → Points q pointer
      → ((r : ℕ) → Points r pointer → r ≡ q)
      → IsOk c'.global_allocator
      → ((r : ℕ) → is_marked c'.global_allocator r ≡ ((r == q) || is_marked c.global_allocator r))
      → unmarked c'.global_allocator + 1 ≡ unmarked c.global_allocator
      → c'.roots ≡ push_region (region q) c.roots
      → Visited is_marked Points region unmarked IsOk c pointer c'

-- A heap of objects, each with its address: which are marked, which one a pointer points into, the
-- memory to scan in it, how many are not marked yet, and for which pointers it says so.
pub record Graph (fuel : ℕ) : Type 1 where
  pub IsOk : GlobalAllocator → Type 0
  pub is_marked : GlobalAllocator → ℕ → Bool
  pub Points : ℕ → ℕ → Type 0
  pub region : ℕ → Option Region
  pub unmarked : GlobalAllocator → ℕ
  pub InScope : ℕ → Type 0
  pub region_fits : (q : ℕ) (r : Region) → region q ≡ some r → r.1 + word_size ≤ word_mod
  pub visit_lem :
      (c : Collector) (pointer : ℕ)
      → InScope pointer
      → IsOk c.global_allocator
      → Returns (visit fuel c pointer) (Visited is_marked Points region unmarked IsOk c pointer)

abbrev pub In : Region → List Region → Type 0
In r [] = ⊥
In r (s ∷ rs) = (r ≡ s) ⊎ In r rs

-- The address is one of a word of the region.
abbrev pub InRegion : ℕ → Region → Type 0
InRegion a r = (k : ℕ) × (a ≡ r.0 + word_size * k) × (a < r.1)

module _ {fuel : ℕ} (graph : Graph fuel) (words : ℕ → ℕ) (roots : List Region) where
  -- The objects that the words of the roots lead to.
  pub data Reach : ℕ → Type 0 where
    root : {q a : ℕ} (r : Region) → In r roots → InRegion a r → graph.Points q (words a) → Reach q
    step :
        {o q a : ℕ} (r : Region)
        → Reach o
        → graph.region o ≡ some r
        → InRegion a r
        → graph.Points q (words a)
        → Reach q

  -- Where a region on the stack comes from.
  abbrev pub Source : Region → Type 0
  Source r = In r roots ⊎ ((o : ℕ) × Reach o × (graph.region o ≡ some r))

  -- Every object that the region's words lead to is marked.
  abbrev pub IsDone : GlobalAllocator → Region → Type 0
  IsDone heap r =
      (a q : ℕ) → InRegion a r → graph.Points q (words a) → graph.is_marked heap q ≡ true

  -- The invariant of the marking, with the regions that are still to be scanned.
  pub record Inv (heap : GlobalAllocator) (pending : List Region) : Type 0 where
    pub ok : graph.IsOk heap
    pub sound : (q : ℕ) → graph.is_marked heap q ≡ true → Reach q
    pub known : (r : Region) → In r pending → Source r
    pub rooted : (r : Region) → In r roots → In r pending ⊎ IsDone heap r
    pub closed :
        (o : ℕ) (r : Region)
        → graph.is_marked heap o ≡ true
        → graph.region o ≡ some r
        → In r pending ⊎ IsDone heap r
