-- ===== src/ChunkList/Validate.antt =====
-- `ChunkList_validate`: which lists the debugging check accepts.
use gc.Base.{
  ℕ, zero, suc, ◌+◌, ◌<◌, ◌≡◌, ◌≢◌, ◌⊎◌, inl, inr, refl, sym, ap, subst, ◌∙◌, List, [], ◌∷◌, arith,
  length, Bool-cases, word_mod, add64-add, ok, aborted, Run, true, false, ◌==◌, ==_iff, ne_test,
  assert, ◌>>◌,
}
use gc.Chunk.{Chunks, null, chunk_header_size}
use gc.ChunkList.{ChunkList, validate_loop, validate}
use gc.ChunkList.Layout.{advance}

-- The links lead from `p` through the chunks at these addresses, which end in memory, to NULL.
abbrev pub Links : Chunks → ℕ → List ℕ → Type 0
Links m p [] = p ≡ null
Links m p (x ∷ xs) =
    (p ≡ x)
    × (x ≢ null)
    × (x + (chunk_header_size + (m x).object.size) < word_mod)
    × Links m (m x).next xs

-- Every chunk ends where the next one starts, and the last one at `stop`.
abbrev pub IsContiguous : Chunks → ℕ → List ℕ → ℕ → Type 0
IsContiguous m p [] stop = p + (chunk_header_size + (m p).object.size) ≡ stop
IsContiguous m p (x ∷ xs) stop =
    (p + (chunk_header_size + (m p).object.size) ≡ x) × IsContiguous m x xs stop

abbrev pub last_of : ℕ → List ℕ → ℕ
last_of p [] = p
last_of p (x ∷ xs) = last_of x xs

-- What a list that is not empty has to be.
abbrev pub IsSound : ChunkList → ℕ → List ℕ → Type 0
IsSound s stop [] = Unit {0}
IsSound s stop (p ∷ ps) =
    IsContiguous s.chunks p ps stop × (last_of p ps ≡ s.last) × (length (p ∷ ps) ≡ s.size)

-- The check accepts if `P` holds, and stops the program if not.
abbrev pub Decides : Type 0 → Run (Unit {0}) → Type 0
Decides P r = (P × (r ≡ ok tt)) ⊎ ((¬ P) × (r ≡ aborted))

assert_or : (a b : ℕ) → ((a ≡ b) × ((a == b) ≡ true)) ⊎ ((¬ (a ≡ b)) × ((a == b) ≡ false))
assert_or a b = elim (Bool-cases (a == b)) [
  | inl same ↦ inl ((==_iff a b).0 same, same)
  | inr other ↦ inr (λ e. ground arith, other)
]

module _ (s : ChunkList) (stop : ℕ) where
  -- What is left to check at a chunk, behind `count` others.
  abbrev Rest : ℕ → List ℕ → ℕ → Type 0
  Rest p ps count =
      IsContiguous s.chunks p ps stop × (last_of p ps ≡ s.last) × (count + length (p ∷ ps) ≡ s.size)

  Decides-end :
      (a b c : ℕ) (m n : ℕ)
      → Decides
          ((a ≡ stop) × (b ≡ s.last) × (m ≡ n))
          (assert (a == stop) >> assert (b == s.last) >> assert (m == n))
  Decides-end a b c m n = elim (assert_or a stop) [
    | inr (ne, e) ↦ inr (λ h. ne h.0, rw e refl)
    | inl (same, e) ↦ elim (assert_or b s.last) [
      | inr (ne, e') ↦ inr (λ h. ne h.1, rw (e, e') refl)
      | inl (same', e') ↦ elim (assert_or m n) [
        | inr (ne, e'') ↦ inr (λ h. ne h.2, rw (e, e', e'') refl)
        | inl (same'', e'') ↦ inl ((same, same', same''), rw (e, e', e'') refl)
      ]
    ]
  ]

  Decides-iff : {P Q : Type 0} {r : Run (Unit {0})} → (P → Q) → (Q → P) → Decides P r → Decides Q r
  Decides-iff to back d = elim d [
    | inl (p, e) ↦ inl (to p, e)
    | inr (np, e) ↦ inr (λ q. np (back q), e)
  ]

  validate_loop-Decides :
      (fuel p : ℕ) (ps : List ℕ) (count : ℕ)
      → Links s.chunks p (p ∷ ps)
      → length ps + 1 < fuel
      → count + length (p ∷ ps) < word_mod
      → Decides (Rest p ps count) (validate_loop fuel s stop p count)
  unfolding validate_loop
  validate_loop-Decides zero p ps count links h small = absurd (omega arith)
  validate_loop-Decides (suc fuel) p [] count (e, ne, fits, tail) h small =
      rw
        (
          ne_test p null ne,
          tail,
          advance p (s.chunks p).object.size fits,
          add64-add count 1 (omega arith),
        )
        (Decides-end (p + (chunk_header_size + (s.chunks p).object.size)) p 0 (count + 1) s.size)
  validate_loop-Decides (suc fuel) p (x ∷ xs) count (e, ne, fits, (at, ne', fits', tail)) h small =
      let rest =
        validate_loop-Decides fuel x xs (count + 1) (refl, ne', fits', tail) (omega arith)
          (omega arith) in
      rw
        (
          ne_test p null ne,
          at,
          ne_test x null ne',
          advance p (s.chunks p).object.size fits,
          add64-add count 1 (omega arith),
        )
        (elim (assert_or (p + (chunk_header_size + (s.chunks p).object.size)) x) [
          | inr (off, k) ↦ inr (λ r. off r.0.0, rw k refl)
          | inl (same, k) ↦ rw k (
              Decides-iff (λ r. ((same, r.0), r.1, omega (arith, r.2)))
                (λ r. (r.0.1, r.1, omega (arith, r.2))) rest)
        ])

  -- An empty list passes.
  validate_loop-null : (fuel : ℕ) → validate_loop (suc fuel) s stop null 0 ≡ ok tt
  unfolding validate_loop
  validate_loop-null fuel = refl

-- On a list whose links lead through fewer than 2 ^ 64 chunks, each ending below 2 ^ 64, to NULL,
-- the debugging check ends, with fuel for one step more than there are chunks. It accepts an empty
-- list, and any other if and only if every chunk ends where the next one starts, the last one ends
-- at the stop of the heap and is the last of the list, and the list says how many there are; else
-- it stops the program.
pub validate-Decides :
    (s : ChunkList) (fuel stop : ℕ) (ps : List ℕ)
    → Links s.chunks s.first ps
    → length ps < fuel
    → length ps < word_mod
    → Decides (IsSound s stop ps) (validate fuel s stop)
unfolding validate
validate-Decides s zero stop ps links h small = absurd (omega arith)
validate-Decides s (suc fuel) stop [] links h small =
    inl (tt, ap (λ x. validate_loop (suc fuel) s stop x 0) links ∙ validate_loop-null s stop fuel)
validate-Decides s (suc fuel) stop (p ∷ ps) (e, ne, fits, tail) h small =
    subst (λ x. Decides (IsSound s stop (p ∷ ps)) (validate_loop (suc fuel) s stop x 0)) (sym e)
      (Decides-iff s stop (λ r. (r.0, r.1, omega (arith, r.2)))
        (λ r. (r.0, r.1, omega (arith, r.2)))
        (validate_loop-Decides s stop (suc fuel) p ps 0 (refl, ne, fits, tail) (omega arith)
          (omega arith)))
