-- ===== src/GlobalAllocator/Recycle/Opening.antt =====
-- The scan of a block's lines in src/global_allocator.c where a hole starts.
use gc.Base.{
  ne_test, ℕ, ◌+◌, ◌≤◌, ◌<◌, ◌≡◌, ◌≢◌, ◌⊎◌, refl, sym, ap, ◌∙◌, Bool, false, ◌==◌, ==_iff, ==_refl,
  arith, Bool-cases, inl, inr, Option, none, some, List, ◌∷◌, subst,
}
use gc.Memory.{init_hole}
use gc.Block.{line_count}
use gc.Block.Address.{IsBlock}
use gc.GlobalAllocator.Recycle.{Scan, null, clear_line, open_hole, write_hole}
use gc.GlobalAllocator.Recycle.Gaps.{Lines, line_at, InGaps, link, first_line}
use gc.GlobalAllocator.Recycle.Steps.{cleared}
use gc.GlobalAllocator.Recycle.Scanned.{Relabelled, Closed, Opened, Relabelled-cleared}
use gc.GlobalAllocator.Recycle.Found.{link-null}

module _ (block : ℕ) (valid : IsBlock block) (marks : ℕ → Bool) where
  module _ (s : Scan) (i : ℕ) (below : s.previous_hole < line_at block i) where
    abbrev pub opened : Scan
    opened = open_hole (cleared s i) (i + 1) (line_at block (i + 1))

    opened_other :
        (a : ℕ) → a ≢ line_at block (i + 1) → a ≢ s.previous_hole → opened.holes a ≡ s.holes a
    unfolding open_hole write_hole
    opened_other a ne ne' = elim (Bool-cases (s.previous_hole == null)) [
      | inl no_hole ↦ rw (no_hole, ne_test a (line_at block (i + 1)) ne) refl
      | inr some_hole ↦
          rw (some_hole, ne_test a s.previous_hole ne', ne_test a (line_at block (i + 1)) ne) refl
    ]

    opened_self : opened.holes (line_at block (i + 1)) ≡ init_hole
    unfolding open_hole write_hole
    opened_self =
        let apart = ne_test (line_at block (i + 1)) s.previous_hole (omega arith) in
        elim (Bool-cases (s.previous_hole == null)) [
          | inl no_hole ↦ rw (no_hole, ==_refl (line_at block (i + 1))) refl
          | inr some_hole ↦ rw (some_hole, apart, ==_refl (line_at block (i + 1))) refl
        ]

    pub opened_hole : opened.hole ≡ line_at block (i + 1)
    unfolding open_hole
    opened_hole = refl

    opened_fresh : (opened.holes opened.hole).next ≡ null
    unfolding init_hole
    opened_fresh = ap (λ a. (opened.holes a).next) opened_hole ∙ ap (λ h. h.next) opened_self

    pub opened_empty : (opened.holes opened.hole).limit ≡ null
    unfolding init_hole
    opened_empty = ap (λ a. (opened.holes a).limit) opened_hole ∙ ap (λ h. h.limit) opened_self

    opened_lines :
        (s' : Scan)
        → marks i ≡ false
        → marks (i + 1) ≡ false
        → Relabelled marks (i + 2) opened.self s'.self
        → Relabelled marks i s.self s'.self
    unfolding open_hole
    opened_lines s' free free' r = Relabelled-cleared block valid marks i s.self s'.self free (
        Relabelled-cleared block valid marks (i + 1) (clear_line s.self i) s'.self free' (
          subst (λ k. Relabelled marks k (clear_line (clear_line s.self i) (i + 1)) s'.self)
            (omega arith) r))

    opened_limit : (opened.holes s.previous_hole).limit ≡ (s.holes s.previous_hole).limit
    unfolding open_hole write_hole
    opened_limit =
        let apart = ne_test s.previous_hole (line_at block (i + 1)) (omega arith) in
        elim (Bool-cases (s.previous_hole == null)) [
          | inl no_hole ↦ rw (no_hole, apart) refl
          | inr some_hole ↦ rw (some_hole, ==_refl s.previous_hole, apart) refl
        ]

    opened_next :
        s.previous_hole ≢ null → (opened.holes s.previous_hole).next ≡ line_at block (i + 1)
    unfolding open_hole write_hole
    opened_next busy = rw (ne_test s.previous_hole null busy, ==_refl s.previous_hole) refl

    opened_first :
        (gaps : List Lines) (stop : ℕ)
        → first_line opened.first_free_line_index gaps
          ≡ first_line s.first_free_line_index ((i + 1, stop) ∷ gaps)
    unfolding open_hole
    opened_first gaps stop = opened_cases s.first_free_line_index gaps stop
      where
        opened_cases :
            (o : Option ℕ) (gaps' : List Lines) (stop' : ℕ)
            → first_line (elim o [ none ↦ some (i + 1) | some k ↦ some k ]) gaps'
              ≡ first_line o ((i + 1, stop') ∷ gaps')
        opened_cases none gaps' stop' = refl
        opened_cases (some k) gaps' stop' = refl

    -- Two lines that are not marked, with no hole open: a hole starts at the second.
    pub Closed-open :
        (s' : Scan)
        → i + 1 < line_count
        → marks i ≡ false
        → marks (i + 1) ≡ false
        → Opened block valid marks opened (i + 2) s'
        → Closed block valid marks s i s'
    Closed-open s' short free free' r = record {
      lines = opened_lines s' free free' r.lines;
      gaps = (i + 1, r.stop) ∷ r.gaps;
      sorted = (omega arith, omega (arith, r.upto), r.upto.1, r.sorted);
      exact = λ j. (
        λ z. elim (Bool-cases (j == i + 1)) [
          | inl same ↦
              let e = (==_iff j (i + 1)).0 same in
              rw e (omega arith, (short, free', ap marks (omega arith) ∙ free))
          | inr other ↦
              let tail : ((i + 2 ≤ j) × (j < r.stop)) ⊎ InGaps j r.gaps = elim z [
                | inl (lo, hi) ↦ inl (ground arith, hi)
                | inr inside ↦ inr inside
              ] in
              let (lo, is) = (r.exact j).0 tail in (omega arith, is)
        ],
        λ (lo, is). elim (Bool-cases (j == i + 1)) [
          | inl same ↦ inl (omega arith, ground (arith, r.upto))
          | inr other ↦ elim ((r.exact j).1 (ground arith, is)) [
            | inl (lo', hi) ↦ inl (omega arith, hi)
            | inr inside ↦ inr inside
          ]
        ],
      );
      linked = (
        ap (λ a. (s'.holes a).limit) (sym opened_hole) ∙ r.limit,
        ap (λ a. (s'.holes a).next) (sym opened_hole)
            ∙ r.next
            ∙ ap (link block r.gaps) opened_fresh
            ∙ link-null block r.gaps,
        r.linked,
      );
      frame = λ a lt ne.
          r.frame a (omega arith) (λ e. absurd (omega (arith, opened_hole)))
          ∙ opened_other a (omega arith) ne;
      limit =
          ap (λ h. h.limit)
            (r.frame s.previous_hole (omega arith) (λ e. absurd (omega (arith, opened_hole))))
          ∙ opened_limit;
      next = λ busy.
          ap (λ h. h.next)
            (r.frame s.previous_hole (omega arith) (λ e. absurd (omega (arith, opened_hole))))
          ∙ opened_next busy;
      first = r.first ∙ opened_first r.gaps r.stop;
    }
