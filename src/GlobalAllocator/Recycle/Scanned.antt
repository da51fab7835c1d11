-- ===== src/GlobalAllocator/Recycle/Scanned.antt =====
-- The scan of a block's lines in src/global_allocator.c finds the gaps and links their holes.
use gc.Base.{
  ne_test, ℕ, ◌+◌, ◌-◌, ◌≤◌, ◌<◌, ◌≡◌, ◌≢◌, ◌⊎◌, ◌↔◌, refl, sym, ap, ◌∙◌, Bool, true, false, ◌==◌,
  ==_iff, arith, Bool-cases, inl, inr, List,
}
use gc.LineHeader
use gc.Block
use gc.Block.{Block, line_count}
use gc.Block.Address.{IsBlock}
use gc.GlobalAllocator.Recycle.{Scan, null, clear_line}
use gc.GlobalAllocator.Recycle.Gaps.{
  Lines, line_at, InGaps, Sorted, IsFreeLine, Linked, link, first_line,
}
use gc.GlobalAllocator.Recycle.Steps.{marked_at, cleared}

-- What the lines become: those that are not marked are cleared, and nothing else changes.
pub record Relabelled (marks : ℕ → Bool) (i : ℕ) (b b' : Block) : Type 0 where
  pub rest : b' ≡ record b { line_headers = b'.line_headers }
  pub kept : (j : ℕ) → marks j ≡ true → b'.line_headers j ≡ b.line_headers j
  pub before : (j : ℕ) → j < i → b'.line_headers j ≡ b.line_headers j
  pub empty :
      (j : ℕ) → i ≤ j → j < line_count → marks j ≡ false → b'.line_headers j ≡ LineHeader.line_empty

abbrev with_headers : Block → (ℕ → ℕ) → Block
with_headers b headers = record b { line_headers = headers }

module _ (block : ℕ) (valid : IsBlock block) (marks : ℕ → Bool) where
  abbrev pub HasMarks : Scan → Type 0
  HasMarks s = (j : ℕ) → marked_at s j ≡ marks j

  -- The scan from line `i` on with no hole open.
  pub record Closed (s : Scan) (i : ℕ) (s' : Scan) : Type 0 where
    pub lines : Relabelled marks i s.self s'.self
    pub gaps : List Lines
    pub sorted : Sorted i gaps
    pub exact : (j : ℕ) → InGaps j gaps ↔ ((i < j) × IsFreeLine marks j)
    pub linked : Linked block s'.holes gaps
    pub frame : (a : ℕ) → a < line_at block i → a ≢ s.previous_hole → s'.holes a ≡ s.holes a
    pub limit : (s'.holes s.previous_hole).limit ≡ (s.holes s.previous_hole).limit
    pub next :
        s.previous_hole ≢ null
        → (s'.holes s.previous_hole).next ≡ link block gaps ((s.holes s.previous_hole).next)
    pub first : s'.first_free_line_index ≡ first_line s.first_free_line_index gaps

  -- The scan from line `i` on inside a gap.
  pub record Opened (s : Scan) (i : ℕ) (s' : Scan) : Type 0 where
    pub lines : Relabelled marks i s.self s'.self
    pub stop : ℕ
    pub gaps : List Lines
    pub upto : (i ≤ stop) × (stop ≤ line_count)
    pub sorted : Sorted (stop + 1) gaps
    pub exact : (j : ℕ) → (((i ≤ j) × (j < stop)) ⊎ InGaps j gaps) ↔ ((i ≤ j) × IsFreeLine marks j)
    pub linked : Linked block s'.holes gaps
    pub frame : (a : ℕ) → a < line_at block i → a ≢ s.hole → s'.holes a ≡ s.holes a
    pub limit : (s'.holes s.hole).limit ≡ line_at block stop
    pub next : (s'.holes s.hole).next ≡ link block gaps ((s.holes s.hole).next)
    pub first : s'.first_free_line_index ≡ first_line s.first_free_line_index gaps

  pub HasMarks-cleared : (s : Scan) (i : ℕ) → HasMarks s → marks i ≡ false → HasMarks (cleared s i)
  unfolding clear_line Block.set_line_header LineHeader.clear LineHeader.is_marked
  HasMarks-cleared s i has free j = elim (Bool-cases (j == i)) [
    | inl same ↦ rw same (sym free ∙ ap marks (sym ((==_iff j i).0 same)))
    | inr other ↦ rw other (has j)
  ]

  pub Relabelled-refl : (i : ℕ) (b : Block) → line_count ≤ i → Relabelled marks i b b
  Relabelled-refl i b h = record {
    rest = refl;
    kept = λ j e. refl;
    before = λ j lt. refl;
    empty = λ j lo hi e. absurd (omega arith);
  }

  pub Relabelled-used :
      (i : ℕ) (b b' : Block)
      → marks i ≡ true
      → Relabelled marks (i + 1) b b'
      → Relabelled marks i b b'
  Relabelled-used i b b' used r = record {
    rest = r.rest;
    kept = r.kept;
    before = λ j lt. r.before j (omega arith);
    empty = λ j lo hi e. elim (Bool-cases (j == i)) [
      | inl same ↦ cc (ap marks ((==_iff j i).0 same))
      | inr other ↦ r.empty j (ground arith) hi e
    ];
  }

  -- The line `i` is cleared first; what follows keeps it empty.
  pub Relabelled-cleared :
      (i : ℕ) (b b' : Block)
      → marks i ≡ false
      → Relabelled marks (i + 1) (clear_line b i) b'
      → Relabelled marks i b b'
  unfolding clear_line Block.set_line_header LineHeader.clear
  Relabelled-cleared i b b' free r = record {
    rest = r.rest;
    kept = λ j e. elim (Bool-cases (j == i)) [
      | inl same ↦ cc (ap marks ((==_iff j i).0 same))
      | inr other ↦ r.kept j e ∙ rw other refl
    ];
    before = λ j lt. r.before j (omega arith) ∙ rw (ne_test j i (omega arith)) refl;
    empty = λ j lo hi e. elim (Bool-cases (j == i)) [
      | inl same ↦ r.before j (ground arith) ∙ rw same refl
      | inr other ↦ r.empty j (ground arith) hi e
    ];
  }

  pub exact-used :
      (i : ℕ) (gaps : List Lines)
      → marks i ≡ true
      → ((j : ℕ) → InGaps j gaps ↔ ((i + 1 < j) × IsFreeLine marks j))
      → (j : ℕ) → InGaps j gaps ↔ ((i ≤ j) × IsFreeLine marks j)
  exact-used i gaps used exact j = (
    λ inside. let (lt, free) = (exact j).0 inside in (omega arith, free),
    λ (lo, free). elim (Bool-cases (j == i)) [
      | inl same ↦ cc (ap marks ((==_iff j i).0 same), free.1)
      | inr other ↦ elim (Bool-cases (j == i + 1)) [
        | inl same' ↦
            let back : j - 1 ≡ i = let e = (==_iff j (i + 1)).0 same' in omega arith in
            cc (ap marks back, free.2)
        | inr other' ↦ (exact j).1 (ground arith, free)
      ]
    ],
  )
