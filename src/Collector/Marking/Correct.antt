-- ===== src/Collector/Marking/Correct.antt =====
-- The marking marks exactly what can be reached.
use gc.Base.{
  ℕ, ◌+◌, ◌^◌, ◌≤◌, ◌<◌, ◌≡◌, ◌↔◌, inl, inr, true, false, List, [], length, word_mod, Returns,
}
use gc.Stack.Regions.{HoldsRegions}
use gc.LineHeader.{word_size}
use gc.GlobalAllocator.{GlobalAllocator}
use gc.Collector.{mark}
use gc.Collector.State.{Collector}
use gc.Collector.Marking.{Region, Graph, In, Reach, root, step, Inv}
use gc.Collector.Marking.Loop.{mark_loop-Inv}

module _ {fuel : ℕ} (graph : Graph fuel) (words : ℕ → ℕ) (roots : List Region) where
  complete :
      {heap : GlobalAllocator} {q : ℕ}
      → Inv graph words roots heap []
      → Reach graph words roots q
      → graph.is_marked heap q ≡ true
  complete inv (root r in_roots at points) = elim (inv.rooted r in_roots) [
    | inl waits ↦ absurd waits
    | inr done ↦ done _ _ at points
  ]
  complete inv (step {o = o} r reached e at points) =
      elim (inv.closed o r (complete inv reached) e) [
        | inl waits ↦ absurd waits
        | inr done ↦ done _ _ at points
      ]

  start-Inv :
      {heap : GlobalAllocator}
      → graph.IsOk heap
      → ((q : ℕ) → graph.is_marked heap q ≡ false)
      → Inv graph words roots heap roots
  start-Inv {heap} fine blank = record {
    ok = fine;
    sound = λ q h. absurd (none_marked q h);
    known = λ r h. inl h;
    rooted = λ r h. inl h;
    closed = λ o r h e. absurd (none_marked o h);
  }
    where
      none_marked : (q : ℕ) → graph.is_marked heap q ≡ true → ⊥
      none_marked q h = cc (blank q)

  pub mark-Reach :
      (c : Collector)
      → 2 ^ 61 < fuel
      → ((a : ℕ) → graph.InScope (words a))
      → graph.IsOk c.global_allocator
      → ((q : ℕ) → graph.is_marked c.global_allocator q ≡ false)
      → ((r : Region) → In r roots → r.1 + word_size ≤ word_mod)
      → HoldsRegions c.roots roots
      → graph.unmarked c.global_allocator + length roots < fuel
      → Returns (mark words fuel c) λ c'.
        graph.IsOk c'.global_allocator
        × ((q : ℕ) → (graph.is_marked c'.global_allocator q ≡ true) ↔ Reach graph words roots q)
  unfolding mark
  mark-Reach c enough scoped fine blank fit holds work =
      let (c', run, inv) =
        mark_loop-Inv graph words roots scoped fit enough fuel c roots holds (start-Inv fine blank)
          work in
      (c', run, (inv.ok, λ q. (inv.sound q, λ reached. complete inv reached)))
