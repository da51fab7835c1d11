-- ===== src/GlobalAllocator/Recycle/Found.antt =====
-- The scan of a block's lines in src/global_allocator.c, line by line: what each branch adds to what
-- the rest of the scan finds.
use gc.Base.{
  ne_test, ℕ, ◌+◌, ◌-◌, ◌≤◌, ◌<◌, ◌≡◌, ◌≢◌, ◌⊎◌, refl, ap, ◌∙◌, Bool, true, false, ◌==◌, ==_iff,
  ==_refl, arith, Bool-cases, inl, inr, Option, none, some, List, [], ◌∷◌,
}
use gc.Block.{line_count}
use gc.Block.Address.{IsBlock, stop_lem}
use gc.GlobalAllocator.Recycle.{Scan, null, close_hole, close_last, write_hole}
use gc.GlobalAllocator.Recycle.Gaps.{Lines, line_at, InGaps, Sorted, head_of, link, first_line}
use gc.GlobalAllocator.Recycle.Steps.{cleared}
use gc.GlobalAllocator.Recycle.Scanned.{
  Closed, Opened, Relabelled-refl, Relabelled-used, Relabelled-cleared, exact-used,
}

pub link-null : (block : ℕ) (gaps : List Lines) → link block gaps null ≡ head_of block gaps
link-null block [] = refl
link-null block (gap ∷ gaps) = refl

first_line-none : (o : Option ℕ) → o ≡ first_line o []
first_line-none none = refl
first_line-none (some i) = refl

Sorted-le : (i : ℕ) (gaps : List Lines) → Sorted (i + 1) gaps → Sorted i gaps
Sorted-le i [] sorted = tt
Sorted-le i (gap ∷ gaps) sorted = (omega arith, sorted.1, sorted.2, sorted.3)

module _ (block : ℕ) (valid : IsBlock block) (marks : ℕ → Bool) where
  pub Closed-end :
      (s : Scan) → s.hole ≡ null → Closed block valid marks s line_count (close_last block s)
  unfolding close_last
  Closed-end s closed = simp closed (record {
    lines = Relabelled-refl block valid marks line_count s.self (omega arith);
    gaps = [];
    sorted = tt;
    exact = λ j. (λ z. absurd z, λ h. absurd (omega (arith, h.1)));
    linked = tt;
    frame = λ a lt ne. refl;
    limit = refl;
    next = λ ne. refl;
    first = first_line-none s.first_free_line_index;
  })

  pub Opened-end :
      (s : Scan)
      → s.hole ≢ null
      → (s.holes s.hole).limit ≡ null
      → Opened block valid marks s line_count (close_last block s)
  unfolding close_last write_hole
  Opened-end s busy fresh =
      let some_hole = ne_test s.hole null busy in
      simp (some_hole, fresh)
        (record {
          lines = Relabelled-refl block valid marks line_count s.self (omega arith);
          stop = line_count;
          gaps = [];
          upto = (omega arith, omega arith);
          sorted = tt;
          exact = λ j. (λ z. absurd (omega arith), λ h. absurd (omega arith));
          linked = tt;
          frame = λ a lt ne. rw (ne_test a s.hole ne) refl;
          limit = rw (==_refl s.hole) (stop_lem valid ∙ omega arith);
          next = rw (==_refl s.hole) refl;
          first = first_line-none s.first_free_line_index;
        })

  -- A marked line, with no hole open.
  pub Closed-used :
      (s s' : Scan) (i : ℕ)
      → marks i ≡ true
      → Closed block valid marks s (i + 1) s'
      → Closed block valid marks s i s'
  Closed-used s s' i used r = record {
    lines = Relabelled-used block valid marks i s.self s'.self used r.lines;
    gaps = r.gaps;
    sorted = Sorted-le i r.gaps r.sorted;
    exact = λ j. (
      λ inside. let (lt, free) = (r.exact j).0 inside in (omega arith, free),
      λ (lt, free). (exact-used block valid marks i r.gaps used r.exact j).1 (omega arith, free),
    );
    linked = r.linked;
    frame = λ a lt ne. r.frame a (omega arith) ne;
    limit = r.limit;
    next = r.next;
    first = r.first;
  }

  -- A marked line, with a hole open.
  pub Opened-close :
      (s s' : Scan) (i : ℕ)
      → i < line_count
      → s.hole < line_at block i
      → s.hole ≢ null
      → marks i ≡ true
      → Closed block valid marks (close_hole s (line_at block i)) (i + 1) s'
      → Opened block valid marks s i s'
  unfolding close_hole write_hole
  Opened-close s s' i short below busy used r = record {
    lines = Relabelled-used block valid marks i s.self s'.self used r.lines;
    stop = i;
    gaps = r.gaps;
    upto = (omega arith, omega arith);
    sorted = r.sorted;
    exact = λ j.
        let (to, back) = exact-used block valid marks i r.gaps used r.exact j in
        (
          λ z. elim z [ inl none_there ↦ absurd (omega arith) | inr inside ↦ to inside ],
          λ h. inr (back h),
        );
    linked = r.linked;
    frame = λ a lt ne. r.frame a (omega arith) ne ∙ rw (ne_test a s.hole ne) refl;
    limit = r.limit ∙ rw (==_refl s.hole) refl;
    next = r.next busy ∙ ap (link block r.gaps) (rw (==_refl s.hole) refl);
    first = r.first;
  }

  -- A free line inside a gap.
  pub Opened-inside :
      (s s' : Scan) (i : ℕ)
      → 1 ≤ i
      → i < line_count
      → marks i ≡ false
      → marks (i - 1) ≡ false
      → Opened block valid marks (cleared s i) (i + 1) s'
      → Opened block valid marks s i s'
  Opened-inside s s' i pos short free back_free r = record {
    lines = Relabelled-cleared block valid marks i s.self s'.self free r.lines;
    stop = r.stop;
    gaps = r.gaps;
    upto = (omega (arith, r.upto), r.upto.1);
    sorted = r.sorted;
    exact = λ j. (
      λ z. elim (Bool-cases (j == i)) [
        | inl same ↦ let e = (==_iff j i).0 same in rw e (omega arith, (short, free, back_free))
        | inr other ↦
            let tail : ((i + 1 ≤ j) × (j < r.stop)) ⊎ InGaps j r.gaps = elim z [
              | inl (lo, hi) ↦ inl (ground arith, hi)
              | inr inside ↦ inr inside
            ] in
            let (lo, is) = (r.exact j).0 tail in (omega arith, is)
      ],
      λ (lo, is). elim (Bool-cases (j == i)) [
        | inl same ↦ inl (lo, (ground (arith, r.upto)))
        | inr other ↦ elim ((r.exact j).1 (ground arith, is)) [
          | inl (lo', hi) ↦ inl (lo, hi)
          | inr inside ↦ inr inside
        ]
      ],
    );
    linked = r.linked;
    frame = λ a lt ne. r.frame a (omega arith) ne;
    limit = r.limit;
    next = r.next;
    first = r.first;
  }

  -- A line that is not marked, with no hole open, in front of a marked line or of the block's end.
  pub Closed-skip :
      (s s' : Scan) (i : ℕ)
      → marks i ≡ false
      → (i + 1 < line_count → marks (i + 1) ≡ true)
      → Closed block valid marks (cleared s i) (i + 1) s'
      → Closed block valid marks s i s'
  Closed-skip s s' i free next_used r = record {
    lines = Relabelled-cleared block valid marks i s.self s'.self free r.lines;
    gaps = r.gaps;
    sorted = Sorted-le i r.gaps r.sorted;
    exact = λ j. (
      λ inside. let (lt, is) = (r.exact j).0 inside in (omega arith, is),
      λ (lt, is). elim (Bool-cases (j == i + 1)) [
        | inl same ↦
            let e = (==_iff j (i + 1)).0 same in
            let short : i + 1 < line_count = omega (arith, is.0) in
            cc (ap marks e, next_used short, is.1)
        | inr other ↦ (r.exact j).1 (ground arith, is)
      ],
    );
    linked = r.linked;
    frame = λ a lt ne. r.frame a (omega arith) ne;
    limit = r.limit;
    next = r.next;
    first = r.first;
  }
