-- ===== src/Collector/Marking/SmallLines.antt =====
-- The search of the small space, line by line, and the visit of a pointer into it.
use gc.Base.{
  differ, add64-add, ℕ, zero, suc, ◌+◌, ◌*◌, ◌%◌, ◌≤◌, ◌<◌, ◌≡◌, refl, sym, ap, ◌∙◌, Bool, true,
  ltb, ◌==◌, ==_iff, arith, Bool-cases, inl, inr, ltb→lt, lt→ltb, word_mod, Returns, subst,
}
use mathlib.Core.Path.{fun_ext}
use gc.LineHeader.{line_size, get_offset}
use gc.LineHeader.Laws.{offset_bits-lt}
use gc.Block
use gc.Block.{block_size, line_count}
use gc.Block.Address.{InLine, IsBlock, line-ok, line_index-InLine}
use gc.Collector.State.{Collector}
use gc.Collector.Small.{
  large_object_size, search_objects, search_lines, lines_before, find_and_mark_small_object,
}
use gc.Collector.Marking.{nothing}
use gc.Collector.Marking.LargeSpace.{Space}
use gc.Collector.Marking.Small.{
  SmallSpace, Walk, line_at, Origin, Found, starts_of, offsets_of, sizes_of, first_object, block_of,
  PointsSmall,
}
use gc.Collector.Marking.Spaces.{inside, IsHeap, Visits}
use gc.Collector.Marking.SmallShield.{line_rounds}
use gc.Collector.Marking.SmallSearch.{Visits-map, search_objects-Visits}

Origin-unique :
    {starts : ℕ → ℕ → Bool} {offsets : ℕ → ℕ → ℕ} {block pointer : ℕ} (i j : ℕ)
    → Origin starts offsets block pointer i
    → Origin starts offsets block pointer j
    → i ≡ j
Origin-unique i j o o' = elim (Bool-cases (ltb i j)) [
  | inl lt ↦ absurd (omega (arith, o.nearest j (ltb→lt i j lt) o'.within o'.has, o'.reached))
  | inr ge ↦ elim (Bool-cases (ltb j i)) [
    | inl gt ↦ absurd (omega (arith, o'.nearest i (ltb→lt j i gt) o.within o.has, o.reached))
    | inr le ↦ ground arith
  ]
]

module _ {fuel : ℕ} {space : Space fuel} (small : SmallSpace space) (rounds : ℕ)
    (enough : line_size + line_rounds < rounds) (c : Collector)
    (w : IsHeap small c.global_allocator) (pointer : ℕ) where
  abbrev starts : ℕ → ℕ → Bool
  starts = starts_of c.global_allocator.blocks

  abbrev offsets : ℕ → ℕ → ℕ
  offsets = offsets_of c.global_allocator.blocks

  abbrev sizes : ℕ → ℕ
  sizes = sizes_of c.global_allocator.objects

  abbrev FoundNow : ℕ → ℕ → Type 0
  FoundNow = Found starts offsets sizes

  search_line-Visits :
      (i : ℕ)
      → Origin starts offsets (block_of pointer) pointer i
      → ((q : ℕ)
          → Walk sizes (line_at (block_of pointer) i) q (offsets (block_of pointer) i)
          → small.is_object q ≡ true)
      → space.small_start ≤ line_at (block_of pointer) i
      → pointer < space.small_stop
      → block_of pointer % block_size ≡ 0
      → line_at (block_of pointer) i + line_size + large_object_size + line_size < word_mod
      → Returns
          (search_objects rounds c
            (block_of pointer)
            i
            (line_at (block_of pointer) i)
            (offsets (block_of pointer) i)
            pointer)
          (Visits small FoundNow c pointer)
  search_line-Visits i origin objects lo hi aligned fits =
      let block = block_of pointer in
      let (c', run, visited) =
        search_objects-Visits small c w block i pointer aligned origin.within rounds
          (offsets block i) objects lo hi fits (omega arith) in
      (
        c',
        run,
        Visits-map small pointer
            (λ q p. record { index = i; origin = origin; walk = p.0; covers = p.1 })
            (λ q p. (
              subst (λ j. Walk sizes (line_at block j) q (offsets block j))
                  (Origin-unique p.index i p.origin origin) p.walk,
              p.covers,
            ))
            visited,
      )

  block_facts :
      inside space pointer ≡ true
      → (block_of pointer % block_size ≡ 0)
        × (space.small_start ≤ block_of pointer)
        × (block_of pointer < space.small_stop)
        × (block_of pointer ≤ pointer)
        × (pointer < block_of pointer + block_size)
        × (pointer < space.small_stop)
        × (block_of pointer + 2 * block_size ≤ word_mod)
  block_facts h =
      let bounds : (space.small_start ≤ pointer) × (pointer < space.small_stop) = ground arith in
      omega (arith, small.aligned, small.room)

  sizes-eq : sizes ≡ sizes_of small.objects
  sizes-eq = fun_ext (λ q. w.is_small.sizes q)

  starts-eq : starts ≡ starts_of small.blocks
  starts-eq = fun_ext (λ b. fun_ext (λ i. (w.is_small.relined b).same_starts i))

  offsets-eq : offsets ≡ offsets_of small.blocks
  offsets-eq = fun_ext (λ b. fun_ext (λ i. (w.is_small.relined b).same_offsets i))

  module _ (within : inside space pointer ≡ true) where
    aligned-IsBlock : IsBlock (block_of pointer)
    aligned-IsBlock = let f = block_facts within in record { aligned = f.0; inside = omega arith }

    objects_now :
        (i : ℕ)
        → i < line_count
        → starts (block_of pointer) i ≡ true
        → (q : ℕ) → Walk sizes (line_at (block_of pointer) i) q (offsets (block_of pointer) i)
        → small.is_object q ≡ true
    objects_now i h has q walk =
        let block = block_of pointer in
        let f = block_facts within in
        small.objects_lem block i q f.0 f.1 f.2 h (sym (ap (λ s. s block i) starts-eq) ∙ has) (
          subst (λ o. Walk (sizes_of small.objects) (line_at block i) q (o block i)) offsets-eq
            (subst (λ s. Walk s (line_at block i) q (offsets block i)) sizes-eq walk))

    search_lines-Visits :
        (n : ℕ)
        → n ≤ line_count
        → ((j : ℕ)
            → j < n
            → starts (block_of pointer) j ≡ true
            → first_object starts offsets (block_of pointer) j ≤ pointer)
        → ((j : ℕ)
            → n ≤ j
            → j < line_count
            → starts (block_of pointer) j ≡ true
            → pointer < first_object starts offsets (block_of pointer) j)
        → Returns
            (search_lines n rounds c (block_of pointer) pointer)
            (Visits small FoundNow c pointer)
    unfolding search_lines Block.line_header get_offset
    search_lines-Visits zero le low high = (
      c,
      refl,
      nothing refl (λ q p. absurd (
          omega
            (arith, high p.index (omega arith) p.origin.within p.origin.has, p.origin.reached))),
    )
    search_lines-Visits (suc n) le low high =
        let block = block_of pointer in
        let f = block_facts within in
        let known = lt→ltb n line_count (omega arith) in
        elim (Bool-cases (starts block n)) [
          | inl has ↦
              let (c', run, visited) =
                search_line-Visits n
                  (record {
                    within = omega arith;
                    has = has;
                    reached = low n (omega arith) has;
                    nearest = λ j above h. high j (omega arith) h;
                  })
                  (objects_now n (omega arith) has) (omega arith) f.5 f.0 (omega arith) in
              (c', rw (known, has, line-ok aligned-IsBlock n (omega arith)) run, visited)
          | inr bare ↦
              let (c', run, visited) =
                search_lines-Visits n (omega arith) (λ j below h. low j (omega arith) h)
                  (λ j above h has. elim (Bool-cases (j == n)) [
                    | inl same ↦ cc (ap (starts block) ((==_iff j n).0 same))
                    | inr other ↦ high j (ground arith) h has
                  ]) in
              (c', rw (known, bare) run, visited)
        ]

    lines_before-Returns :
        (i : ℕ)
        → InLine (block_of pointer) i pointer
        → Returns (lines_before c (block_of pointer) i pointer) λ n.
          (n ≤ line_count)
          × ((j : ℕ)
              → j < n
              → starts (block_of pointer) j ≡ true
              → first_object starts offsets (block_of pointer) j ≤ pointer)
          × ((j : ℕ)
              → n ≤ j
              → j < line_count
              → starts (block_of pointer) j ≡ true
              → pointer < first_object starts offsets (block_of pointer) j)
    unfolding lines_before Block.line_header get_offset
    lines_before-Returns i at =
        let block = block_of pointer in
        let f = block_facts within in
        let short = λ (j : ℕ).
          offset_bits-lt ((c.global_allocator.blocks block).line_headers j)
            ((w.is_small.relined block).bytes j) in
        let known = lt→ltb i line_count at.0 in
        let on = line-ok aligned-IsBlock i at.0 in
        let sum = add64-add (line_at block i) (offsets block i) (omega (arith, short i)) in
        elim (Bool-cases (starts block i)) [
          | inr bare ↦ (
            i + 1,
            rw (known, bare) refl,
            (
              omega (arith, at.0),
              λ j below has. elim (Bool-cases (j == i)) [
                | inl same ↦
                    absurd (differ (sym has ∙ ap (starts block) ((==_iff j i).0 same) ∙ bare))
                | inr other ↦ let ne : j < i = ground arith in omega (arith, short j, at.1)
              ],
              λ j above h has. omega (arith, at.2),
            ),
          )
          | inl has ↦ elim (Bool-cases (ltb pointer (line_at block i + offsets block i))) [
            | inl behind ↦ (
              i,
              rw (known, has, on, sum, behind) refl,
              (
                omega (arith, at.0),
                λ j below h. omega (arith, short j, at.1),
                λ j above h h'. elim (Bool-cases (j == i)) [
                  | inl same ↦ rw ((==_iff j i).0 same) (ltb→lt _ _ behind)
                  | inr other ↦ let gt : i < j = ground arith in omega (arith, at.2)
                ],
              ),
            )
            | inr front ↦ (
              i + 1,
              rw (known, has, on, sum, front) refl,
              (
                omega (arith, at.0),
                λ j below h. elim (Bool-cases (j == i)) [
                  | inl same ↦ rw ((==_iff j i).0 same) (ground arith)
                  | inr other ↦ let lt : j < i = ground arith in omega (arith, short j, at.1)
                ],
                λ j above h h'. omega (arith, at.2),
              ),
            )
          ]
        ]

    find_and_mark-FoundNow :
        Returns (find_and_mark_small_object rounds c pointer) (Visits small FoundNow c pointer)
    unfolding find_and_mark_small_object Block.from
    find_and_mark-FoundNow =
        let f = block_facts within in
        let (r, run, which) = line_index-InLine aligned-IsBlock pointer f.3 f.4 in
        elim which [
          | inl (i, e, at) ↦
              let (n, before, (le, low, high)) = lines_before-Returns i at in
              let (c', search, visited) = search_lines-Visits n le low high in
              (c', rw (run, e, before) search, visited)
          | inr (e, metadata) ↦
              (c, rw (run, e) refl, nothing refl (λ q p. absurd (omega (arith, p.origin.reached))))
        ]

    -- A pointer into the small space marks the object found from it, if there is one that is not marked.
    pub find_and_mark-Visits :
        Returns
          (find_and_mark_small_object rounds c pointer)
          (Visits small (PointsSmall small) c pointer)
    find_and_mark-Visits =
        let (c', run, visited) = find_and_mark-FoundNow in
        (
          c',
          run,
          subst
              (λ s.
                Visits small (Found s (offsets_of small.blocks) (sizes_of small.objects)) c pointer
                  c')
              starts-eq
              (subst (λ o. Visits small (Found starts o (sizes_of small.objects)) c pointer c')
                offsets-eq
                (subst (λ s. Visits small (Found starts offsets s) c pointer c') sizes-eq visited)),
        )
