-- ===== src/GlobalAllocator/TryCollect.antt =====
-- `GlobalAllocator_tryCollect`: whether a collection is due.
use gc.Base.{
  ◌/◌, ◌≡◌, ◌≢◌, refl, ◌⊎◌, inl, inr, ℕ, true, false, arith, Bool-cases, ltb, ◌==◌, ==_lt, ok,
  ◌>>=◌,
}
use gc.GlobalAllocator.{GlobalAllocator, Environment, heap_size, try_collect}

-- It does nothing, or it runs the collector and says so, and a divisor other than 0 stops nothing.
pub try_collect-cases :
    (env : Environment) (fuel : ℕ) (s : GlobalAllocator)
    → s.free_space_divisor ≢ 0
    → (try_collect env fuel s ≡ ok (s, false))
      ⊎ (try_collect env fuel s ≡ (env.gc_collect s >>= λ t. ok (t, true)))
unfolding try_collect
try_collect-cases env fuel s h =
    let e : (s.free_space_divisor == 0) ≡ false = ==_lt s.free_space_divisor 0 (omega arith) in
    elim (Bool-cases env.is_collecting) [
      | inl k ↦ inl (rw k refl)
      | inr k ↦
          elim (Bool-cases
            (ltb s.allocated_bytes_since_collect (heap_size s / s.free_space_divisor))) [
              | inl l ↦ inl (rw (k, e, l) refl)
              | inr l ↦ inr (rw (k, e, l) refl)
            ]
    ]
