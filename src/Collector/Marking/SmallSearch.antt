-- ===== src/Collector/Marking/SmallSearch.antt =====
-- The search of the small space for the object that a pointer points into: first in one line.
use gc.Base.{
  differ, if◌then◌else◌, aborted, ℕ, zero, suc, ◌+◌, ◌-◌, ◌%◌, ◌≤◌, ◌<◌, ◌≡◌, ◌≢◌, refl, sym, ap,
  ◌∙◌, true, false, ltb, ◌==◌, arith, Bool-cases, inl, inr, ==_iff, ltb→lt, lt→ltb, le→ltb,
  word_mod, add64-add, ok, Returns, subst,
}
use gc.Object
use gc.Object.{Object, object_header}
use gc.LineHeader.{line_size}
use gc.Block.{block_size, line_count}
use gc.Collector.State.{Collector}
use gc.Collector.Small.{large_object_size, mark_small_object, search_objects}
use gc.Collector.Marking.{nothing, marks}
use gc.Collector.Marking.LargeSpace.{Space}
use gc.Collector.Marking.Small.{SmallSpace, Walk, first, later, Walk-le, Covers, line_at, block_of}
use gc.Collector.Marking.Spaces.{inside, IsHeap, is_marked, Visits}
use gc.Collector.Marking.SmallShield.{line_rounds}
use gc.Collector.Marking.SmallMark.{mark_small_object-Visits}

pub Walk-lt : {sizes : ℕ → ℕ} {line q o : ℕ} → Walk sizes line q o → o < line_size
Walk-lt (first h e size) = h
Walk-lt (later h size w) = h

pub Walk-head : {sizes : ℕ → ℕ} {line q o : ℕ} → Walk sizes line q o → sizes (line + o) ≢ 0
Walk-head {sizes} (first h e size) = λ z. size (ap sizes e ∙ z)
Walk-head (later h size w) = size

-- An object of the walk that covers a pointer is the walk's first one, if that covers it too.
Walk-only :
    {sizes : ℕ → ℕ} {line q o : ℕ} (pointer : ℕ)
    → pointer < line + o + sizes (line + o)
    → Walk sizes line q o
    → Covers q (sizes q) pointer
    → q ≡ line + o
Walk-only pointer hi (first h e size) at = e
Walk-only pointer hi (later h size w) at = absurd (omega (arith, Walk-le w))

-- An object of the walk that covers a pointer stands behind the first one, if that does not.
Walk-rest :
    {sizes : ℕ → ℕ} {line q o : ℕ} (pointer : ℕ)
    → (Covers (line + o) (sizes (line + o)) pointer → ⊥)
    → Walk sizes line q o
    → Covers q (sizes q) pointer
    → Walk sizes line q (o + sizes (line + o))
Walk-rest {sizes} pointer out (first h e size) at =
    absurd (out (subst (λ x. Covers x (sizes x) pointer) e at))
Walk-rest pointer out (later h size w) at = w

contains-true :
    (q : ℕ) (object : Object) (pointer : ℕ)
    → q + object_header < word_mod
    → q + object.size < word_mod
    → Object.contains q object pointer ≡ true
    → Covers q object.size pointer
unfolding Object.contains Object.mutator_address
contains-true q object pointer top bottom h =
    let t = add64-add q object_header top in
    let b = add64-add q object.size bottom in let h' = rw (t, b) at h in ground arith

contains-false :
    (q : ℕ) (object : Object) (pointer : ℕ)
    → q + object_header < word_mod
    → q + object.size < word_mod
    → Object.contains q object pointer ≡ false
    → Covers q object.size pointer
    → ⊥
unfolding Object.contains Object.mutator_address
contains-false q object pointer top bottom h at =
    let t = add64-add q object_header top in
    let b = add64-add q object.size bottom in let h' = rw (t, b) at h in ground arith

module _ {fuel : ℕ} {space : Space fuel} (small : SmallSpace space) where
  pub Visits-map :
      {P Q : ℕ → ℕ → Type 0} {c c' : Collector} (pointer : ℕ)
      → ((r : ℕ) → P r pointer → Q r pointer)
      → ((r : ℕ) → Q r pointer → P r pointer)
      → Visits small P c pointer c'
      → Visits small Q c pointer c'
  Visits-map pointer to back (nothing e done) = nothing e (λ r at. done r (back r at))
  Visits-map pointer to back (marks q at only heap marked count roots) =
      marks q (to q at) (λ r at'. only r (back r at')) heap marked count roots

  module _ (c : Collector) (w : IsHeap small c.global_allocator) (block i pointer : ℕ)
      (aligned : block % block_size ≡ 0) (known : i < line_count) where
    abbrev size_now : ℕ → ℕ
    size_now a = (c.global_allocator.objects a).size

    -- The objects of the line, from an offset on, that the pointer points into.
    abbrev pub InLineAt : ℕ → ℕ → ℕ → Type 0
    InLineAt o q p = Walk size_now (line_at block i) q o × Covers q (size_now q) p

    -- One round of the search.
    search_objects-step :
        (rounds o : ℕ)
        → line_at block i + o < word_mod
        → search_objects (suc rounds) c block i (line_at block i) o pointer ≡ (
            let q = line_at block i + o in
            let object = c.global_allocator.objects q in
            let rest =
              search_objects rounds c block i (line_at block i) (o + object.size) pointer in
            let found =
              if Object.is_marked object
              then ok c
              else mark_small_object rounds c block i (line_at block i) q in
            let search =
              if ltb large_object_size object.size
              then aborted
              else (if Object.contains q object pointer then found else rest) in
            if ltb o line_size then (if object.size == 0 then ok c else search) else ok c)
    unfolding search_objects
    search_objects-step rounds o h = rw (add64-add (line_at block i) o h) refl

    search_objects-past :
        (rounds o : ℕ)
        → ltb o line_size ≡ false
        → search_objects (suc rounds) c block i (line_at block i) o pointer ≡ ok c
    unfolding search_objects
    search_objects-past rounds o past = rw past refl

    inside-true : (q : ℕ) → space.small_start ≤ q → q < space.small_stop → inside space q ≡ true
    inside-true q lo hi = ground arith

    -- The first object of the rest covers the pointer.
    hit-Visits :
        (rounds o : ℕ)
        → o < line_size
        → size_now (line_at block i + o) ≢ 0
        → small.is_object (line_at block i + o) ≡ true
        → Covers (line_at block i + o) (size_now (line_at block i + o)) pointer
        → space.small_start ≤ line_at block i
        → pointer < space.small_stop
        → line_at block i + line_size + large_object_size + line_size < word_mod
        → line_rounds ≤ rounds
        → Returns
            (if Object.is_marked (c.global_allocator.objects (line_at block i + o))
              then ok c
              else mark_small_object rounds c block i (line_at block i) (line_at block i + o))
            (Visits small (InLineAt o) c pointer)
    hit-Visits rounds o short ne ob cov lo hi fits enough =
        let q = line_at block i + o in
        let within = inside-true q (omega arith) (omega arith) in
        let only = λ (r : ℕ) (p : InLineAt o r pointer). Walk-only pointer cov.1 p.0 p.1 in
        let size = w.is_small.sizes q in
        let limit = small.limit q ob in
        let home : block_of q ≡ block = omega arith in
        elim (Bool-cases (Object.is_marked (c.global_allocator.objects q))) [
          | inl done ↦ (
            c,
            rw done refl,
            nothing refl (λ r p.
                ap (is_marked small c.global_allocator) (only r p) ∙ rw (within, ob, done) refl),
          )
          | inr todo ↦
              let (c', run, visited) =
                mark_small_object-Visits small (InLineAt o) rounds c block i q pointer enough w
                  (omega arith) (omega arith) home limit (omega arith) (omega arith) within ob todo
                  (first short refl ne, cov) only in
              (c', rw todo run, visited)
        ]

    pub search_objects-Visits :
        (rounds o : ℕ)
        → ((q : ℕ) → Walk size_now (line_at block i) q o → small.is_object q ≡ true)
        → space.small_start ≤ line_at block i
        → pointer < space.small_stop
        → line_at block i + line_size + large_object_size + line_size < word_mod
        → line_size - o + line_rounds < rounds
        → Returns
            (search_objects rounds c block i (line_at block i) o pointer)
            (Visits small (InLineAt o) c pointer)
    search_objects-Visits zero o objects lo hi fits enough = absurd (omega arith)
    search_objects-Visits (suc rounds) o objects lo hi fits enough =
        let line = line_at block i in
        let q = line + o in
        let object = c.global_allocator.objects q in
        elim (Bool-cases (ltb o line_size)) [
          | inr past ↦ (
            c,
            search_objects-past rounds o past,
            nothing refl (λ r p. absurd (differ (sym (lt→ltb o line_size (Walk-lt p.0)) ∙ past))),
          )
          | inl short ↦
              let in_line = ltb→lt o line_size short in
              let step = search_objects-step rounds o (omega arith) in
              elim (Bool-cases (object.size == 0)) [
                | inl gap ↦ (
                  c,
                  step ∙ rw (short, gap) refl,
                  nothing refl (λ r p. absurd (Walk-head p.0 ((==_iff object.size 0).0 gap))),
                )
                | inr some_size ↦
                    let ne : object.size ≢ 0 =
                      λ z. differ (sym ((==_iff object.size 0).1 z) ∙ some_size) in
                    let ob : small.is_object q ≡ true = objects q (first in_line refl ne) in
                    let size = w.is_small.sizes q in
                    let limit : object.size ≤ large_object_size = omega (arith, small.limit q ob) in
                    let not_large = le→ltb object.size large_object_size limit in
                    elim (Bool-cases (Object.contains q object pointer)) [
                      | inl found ↦
                          let cov =
                            contains-true q object pointer (omega arith) (omega arith) found in
                          let (c', run, visited) =
                            hit-Visits rounds o in_line ne ob cov lo hi fits (omega arith) in
                          (c', step ∙ (rw (short, some_size, not_large, found) refl ∙ run), visited)
                      | inr away ↦
                          let (c', run, visited) =
                            search_objects-Visits rounds (o + object.size)
                              (λ r p. objects r (later in_line ne p)) lo hi fits (omega arith) in
                          (
                            c',
                            step ∙ (rw (short, some_size, not_large, away) refl ∙ run),
                            Visits-map pointer (λ r p. (later in_line ne p.0, p.1))
                                (λ r p. (
                                  Walk-rest pointer
                                      (contains-false q object pointer (omega arith) (omega arith)
                                        away)
                                      p.0 p.1,
                                  p.1,
                                ))
                                visited,
                          )
                    ]
              ]
        ]
