-- ===== src/GlobalAllocator/Allocate.antt =====
-- The whole of `GC_GlobalAllocator_allocateLarge`: the attempt, the collection, the second attempt,
-- the growth and the last attempt.
use gc.Base.{
  ℕ, ◌+◌, ◌-◌, ◌^◌, ◌≤◌, ◌≡◌, ◌≢◌, refl, ◌⊎◌, inl, inr, Option, none, some, [], ◌∷◌, ◌++◌, arith,
  ◌==◌, if◌then◌else◌, add64-add, Run, ok, aborted, Returns, ◌>>=◌,
}
use gc.Object.{object_header}
use gc.Chunk.{null, sizeof_chunk, chunk_header_size}
use gc.ChunkList.Layout.{Cells, IsLayout-size-lt}
use gc.ChunkList.Split.{free_cell}
use gc.LineHeader.{word_size}
use gc.GlobalAllocator.{
  GlobalAllocator, Environment, round_to_next_multiple, try_allocate_large, grow_and_allocate,
  collect_and_allocate, allocate_large,
}
use gc.GlobalAllocator.TryCollect.{try_collect-cases}
use gc.GlobalAllocator.Place.{place}
use gc.GlobalAllocator.Large.{
  HasLayout, Placed, ForSome, place-Placed, Attempt, try_allocate_large-place,
}
use gc.GlobalAllocator.Grow.{
  round-word, IsMapped, IsCeilLog2, growth, growth_bounds, Over, grow_large-Grown,
}
use gc.GlobalAllocator.Allocated.{
  StandsAt-append, place-append-IsSome, Allocated, Collects, Attempt-Allocated, Allocated-later,
  Attempt-of_IsSome, keep_pointer,
}

module _ (Live : ℕ → Type 0) (env : Environment) (log : IsCeilLog2 env.ceil_log2) (fuel : ℕ)
    (enough : 2 ^ 60 ≤ fuel) where
  attempt_grown :
      {s s' : GlobalAllocator} {cs : Cells} (n atomic size : ℕ)
      → n + sizeof_chunk ≤ size
      → n + sizeof_chunk ≤ 2 ^ 40
      → HasLayout s' (cs ++ free_cell (size - chunk_header_size) ∷ [])
      → s'.large_heap_start ≡ s.large_heap_start
      → Returns
          (try_allocate_large fuel s' n atomic)
          (Allocated Live s cs (n + object_header) atomic)
  attempt_grown {s} {s'} {cs} n atomic size room small w e =
      let m = size - chunk_header_size in
      Allocated-later Live {s = s} {s' = s'} {cs = cs} {cs' = cs ++ free_cell m ∷ []} e
        (λ r d at a live.
          (d, (refl, refl, refl), StandsAt-append r d s.large_heap_start cs (free_cell m ∷ []) at))
        (Attempt-of_IsSome Live n atomic
          (place (n + object_header) atomic s'.large_heap_start (cs ++ free_cell m ∷ []))
          (place-append-IsSome (n + object_header) atomic s'.large_heap_start m cs (omega arith))
          (place-Placed (n + object_header) atomic s'.large_heap_start (cs ++ free_cell m ∷ []))
          (try_allocate_large-place fuel n atomic w (omega arith)
            (omega (arith, IsLayout-size-lt w.layout))))

  grow_and_allocate-Allocated :
      {s : GlobalAllocator} {cs : Cells} (n atomic : ℕ)
      → HasLayout s cs
      → IsMapped s
      → n + sizeof_chunk ≤ 2 ^ 40
      → (Over env log s (n + sizeof_chunk) × (grow_and_allocate env fuel s n atomic ≡ aborted))
        ⊎ Returns
            (grow_and_allocate env fuel s n atomic)
            (Allocated Live s cs (n + object_header) atomic)
  unfolding grow_and_allocate
  grow_and_allocate-Allocated {s} {cs} n atomic w m small =
      let e = add64-add n sizeof_chunk (omega arith) in
      let b = growth_bounds env log (n + sizeof_chunk) (omega arith) small in
      elim (grow_large-Grown env log fuel (n + sizeof_chunk) w m (omega arith) small) [
        | inl (over, run) ↦ inl (over, rw (e, run) refl)
        | inr (s', run, (w', m', f)) ↦ inr (
            rw (e, run)
              (keep_pointer Live (λ t. aborted)
                (attempt_grown n atomic (growth env (n + sizeof_chunk)) b.0 small w' f)))
      ]

  -- The limit is passed, by the heap as it is or as the collector leaves it.
  abbrev pub PassesLimit : GlobalAllocator → ℕ → Type 0
  PassesLimit s n =
      (s' : GlobalAllocator) × ((s' ≡ s) ⊎ (env.gc_collect s ≡ ok s'))
      × Over env log s' (n + sizeof_chunk)

  -- The program stops, for the reason `F`, or the mutator has its memory.
  abbrev pub Result : Type 0 → GlobalAllocator → Cells → ℕ → ℕ → Run (GlobalAllocator × ℕ) → Type 0
  Result F s cs n atomic r =
      (F × (r ≡ aborted)) ⊎ Returns r (Allocated Live s cs (n + object_header) atomic)

  -- An attempt, and what to do if it fails.
  attempt_or :
      {F : Type 0} {s : GlobalAllocator} {cs : Cells} (n atomic : ℕ)
      (other : GlobalAllocator → Run (GlobalAllocator × ℕ))
      → n + sizeof_chunk ≤ 2 ^ 40
      → HasLayout s cs
      → Result F s cs n atomic (other s)
      → Result F s cs n atomic
          (try_allocate_large fuel s n atomic >>= λ r. if r.1 == null then other r.0 else ok r)
  attempt_or {F} {s} {cs} n atomic other small w rest =
      case_of (place (n + object_header) atomic s.large_heap_start cs)
        (place-Placed (n + object_header) atomic s.large_heap_start cs)
        (try_allocate_large-place fuel n atomic w (omega arith)
          (omega (arith, IsLayout-size-lt w.layout)))
    where
      case_of :
          (o : Option (ℕ × Cells))
          → ForSome (Placed (n + object_header) atomic s.large_heap_start cs) o
          → Attempt s cs n atomic o (try_allocate_large fuel s n atomic)
          → Result F s cs n atomic
              (try_allocate_large fuel s n atomic >>= λ r. if r.1 == null then other r.0 else ok r)
      case_of none placed t = rw t rest
      case_of (some (q, cs')) placed t =
          inr (keep_pointer Live (λ r. other r.0) (Attempt-Allocated Live n atomic q cs' placed t))

  collect_and_allocate-Result :
      {s : GlobalAllocator} {cs : Cells} (n atomic : ℕ)
      → Collects env Live s cs
      → n + sizeof_chunk ≤ 2 ^ 40
      → HasLayout s cs
      → IsMapped s
      → s.free_space_divisor ≢ 0
      → Result (PassesLimit s n) s cs n atomic (collect_and_allocate env fuel s n atomic)
  unfolding collect_and_allocate
  collect_and_allocate-Result {s} {cs} n atomic gc small w m h =
      elim (try_collect-cases env fuel s h) [
        | inl e ↦ rw e (elim (grow_and_allocate-Allocated n atomic w m small) [
          | inl (over, run) ↦ inl ((s, inl refl, over), run)
          | inr r ↦ inr r
        ])
        | inr e ↦
            let r =
              attempt_or n atomic (λ t. grow_and_allocate env fuel t n atomic) small gc.layout
                (grow_and_allocate-Allocated n atomic gc.layout gc.mapped small) in
            rw (e, gc.runs)
              (elim r [
                | inl (over, stop) ↦ inl ((gc.after, inr refl, over), stop)
                | inr found ↦ inr (
                    Allocated-later Live {s = s} {s' = gc.after} {cs = cs} {cs' = gc.chunks}
                      gc.same_start gc.keeps found)
              ])
      ]

  -- Allocation of up to 2 ^ 39 bytes in a laid out large space ends, with fuel of 2 ^ 60, and fails
  -- no assertion. The program stops only if growth by the power of two for the request would pass
  -- the memory limit, in the heap as it is or as the collector leaves it; the last attempt after
  -- growth never fails. Otherwise the mutator gets the address behind the header of an allocated
  -- chunk of the space with room for the size rounded up to words and the object's header, the
  -- space is laid out again, and every allocated chunk that is live stands where it stood, with its
  -- size and its flags, but for its mark. The collector, if it is called, returns from the heap at
  -- hand, and leaves a laid out space of the same start, within its limit, in which the live
  -- allocated chunks stand, with any marks; the divisor of the free space is not 0; the memory
  -- limit is below 2 ^ 63 and the heap within it.
  pub allocate_large-Allocated :
      {s : GlobalAllocator} {cs : Cells} (size atomic : ℕ)
      → Collects env Live s cs
      → size ≤ 2 ^ 39
      → HasLayout s cs
      → IsMapped s
      → s.free_space_divisor ≢ 0
      → Result
          (PassesLimit s (round_to_next_multiple size word_size))
          s
          cs
          (round_to_next_multiple size word_size)
          atomic
          (allocate_large env fuel s size atomic)
  unfolding allocate_large
  allocate_large-Allocated size atomic gc small w m h =
      let r = round-word size (omega arith) in
      let n = round_to_next_multiple size word_size in
      attempt_or n atomic (λ t. collect_and_allocate env fuel t n atomic) (omega arith) w
        (collect_and_allocate-Result n atomic gc (omega arith) w m h)
