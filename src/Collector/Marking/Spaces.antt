-- ===== src/Collector/Marking/Spaces.antt =====
-- Both object spaces as one graph: a chunk in use of the large space, or an object of the small one,
-- by its address.
use gc.Base.{
  ℕ, zero, suc, ◌+◌, ◌-◌, ◌≤◌, ◌<◌, ◌≡◌, ◌≢◌, ◌⊎◌, refl, Bool, true, false, not, ◌&&◌, ltb, leb,
  ◌==◌, if◌then◌else◌, Option, none, some, arith, Bool-cases, inl, inr, ==_iff, ==_refl,
}
use gc.Object
use gc.Object.{Object, object_header}
use gc.GlobalAllocator.{GlobalAllocator}
use gc.Collector.State.{Collector}
use gc.Collector.Marking.{Region, Visited}
use gc.Collector.Marking.Large.{marked_in, not_marked, region_in}
use gc.Collector.Marking.LargeSpace.{Space, IsLarge, PointsInto}
use gc.Collector.Marking.Small.{SmallSpace, PointsSmall, IsSmall, Shielded, block_of}

abbrev pub marked_object : (ℕ → Object) → ℕ → ℕ → Object
marked_object objects q r = if r == q then Object.mark (objects q) else objects r

module _ (is_object : ℕ → Bool) where
  -- The objects not marked yet at `n` addresses from one on.
  abbrev pub not_marked_from : (ℕ → Object) → ℕ → ℕ → ℕ
  not_marked_from objects a zero = 0
  not_marked_from objects a (suc n) =
      (if is_object a && not (Object.is_marked (objects a)) then 1 else 0)
      + not_marked_from objects (a + 1) n

  pub not_marked_from-le : (objects : ℕ → Object) (a n : ℕ) → not_marked_from objects a n ≤ n
  not_marked_from-le objects a zero = omega arith
  not_marked_from-le objects a (suc n) = ground (arith, not_marked_from-le objects (a + 1) n)

  not_marked_from-frame :
      (objects : ℕ → Object) (q a n : ℕ)
      → q < a
      → not_marked_from (marked_object objects q) a n ≡ not_marked_from objects a n
  not_marked_from-frame objects q a zero h = refl
  not_marked_from-frame objects q a (suc n) h =
      let other : (a == q) ≡ false = ground arith in
      rw (other, not_marked_from-frame objects q (a + 1) n (omega arith)) refl

  pub not_marked_from-marked :
      (objects : ℕ → Object) (q a n : ℕ)
      → is_object q ≡ true
      → Object.is_marked (objects q) ≡ false
      → a ≤ q
      → q < a + n
      → not_marked_from (marked_object objects q) a n + 1 ≡ not_marked_from objects a n
  unfolding Object.is_marked Object.mark
  not_marked_from-marked objects q a zero ob un lo hi = absurd (omega arith)
  not_marked_from-marked objects q a (suc n) ob un lo hi = elim (Bool-cases (a == q)) [
    | inl same ↦
        let e : a ≡ q = (==_iff a q).0 same in
        rw (e, ==_refl q, ob, un, not_marked_from-frame objects q (q + 1) n (omega arith))
          (omega arith)
    | inr other ↦
        let more : a ≢ q = ground arith in
        rw other (omega (arith, not_marked_from-marked objects q (a + 1) n ob un))
  ]

-- The memory of an object that is scanned, if it may hold pointers.
abbrev pub object_region : ℕ → Object → Option Region
object_region q object =
    if object.atomic == 0 then some (q + object_header, q + object.size) else none

module _ {fuel : ℕ} (space : Space fuel) where
  abbrev pub inside : ℕ → Bool
  inside q = leb space.small_start q && ltb q space.small_stop

module _ {fuel : ℕ} {space : Space fuel} (small : SmallSpace space) where
  pub record IsHeap (heap : GlobalAllocator) : Type 0 where
    pub is_large : IsLarge space heap
    pub is_small : IsSmall small heap
    pub same_finalizers : heap.finalizers ≡ small.finalizers
    pub shielded :
        (q : ℕ)
        → small.is_object q ≡ true
        → Object.is_marked (heap.objects q) ≡ true
        → Shielded (heap.blocks (block_of q)) (block_of q) q ((small.objects q).size)

  abbrev pub is_marked : GlobalAllocator → ℕ → Bool
  is_marked heap q =
      if inside space q
      then small.is_object q && Object.is_marked (heap.objects q)
      else marked_in heap.large_chunk_list.chunks q space.start space.chunks

  abbrev pub unmarked : GlobalAllocator → ℕ
  unmarked heap =
      not_marked_from small.is_object heap.objects space.small_start
        (space.small_stop - space.small_start)
      + not_marked heap.large_chunk_list.chunks space.start space.chunks

  abbrev pub region : ℕ → Option Region
  region q =
      if inside space q
      then (if small.is_object q then object_region q (small.objects q) else none)
      else region_in q space.start space.chunks

  -- A pointer into the small space is searched for there, any other among the chunks.
  abbrev pub Points : ℕ → ℕ → Type 0
  Points q pointer =
      ((inside space pointer ≡ true) × PointsSmall small q pointer)
      ⊎ ((inside space pointer ≡ false) × PointsInto space q pointer)

  abbrev pub Visits : (ℕ → ℕ → Type 0) → Collector → ℕ → Collector → Type 0
  Visits P = Visited is_marked P region unmarked IsHeap
