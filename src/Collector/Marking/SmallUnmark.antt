-- ===== src/Collector/Marking/SmallUnmark.antt =====
-- The unmarking of the small object space: every object that stands in a line loses its mark.
use gc.Base.{
  differ, ℕ, zero, suc, ◌+◌, ◌-◌, ◌≤◌, ◌<◌, ◌≡◌, ◌≢◌, ◌⊎◌, refl, sym, ap, ◌∙◌, true, false, ltb,
  ◌==◌, ==_iff, ==_refl, arith, Bool-cases, inl, inr, ltb→lt, lt→ltb, word_mod, add64-add, ok,
  Returns, subst, if◌then◌else◌,
}
use gc.Object
use gc.Object.{Object}
use gc.LineHeader
use gc.LineHeader.{line_size, contains_object, get_offset}
use gc.LineHeader.Laws.{unmark_lem, offset_bits}
use gc.Block
use gc.Block.{Block, block_size, line_count, set_line_header}
use gc.Block.Address.{IsBlock, line-ok}
use gc.GlobalAllocator.{GlobalAllocator}
use gc.Collector.Small.{unmark_objects, unmark_line, write_object}
use gc.Collector.Marking.LargeSpace.{Space}
use gc.Collector.Marking.Small.{
  SmallSpace, IsSmall, Walk, Relined, Relined-trans, line_at, starts_of, offsets_of, sizes_of,
}
use gc.Collector.Marking.SmallSearch.{Walk-lt, Walk-head}

-- An object of the walk is its first one or stands behind that.
pub Walk-cases :
    {sizes : ℕ → ℕ} {line q o : ℕ}
    → Walk sizes line q o
    → (q ≡ line + o) ⊎ Walk sizes line q (o + sizes (line + o))
Walk-cases (Walk.first h e size) = inl e
Walk-cases (Walk.later h size w) = inr w

abbrev pub with_small : GlobalAllocator → (ℕ → Block) → (ℕ → Object) → GlobalAllocator
with_small s blocks objects = record s { blocks = blocks; objects = objects }

module _ {fuel : ℕ} {space : Space fuel} (small : SmallSpace space) where
  -- Only blocks and objects change; marks of objects are at most cleared.
  pub record Unmarking (s s' : GlobalAllocator) : Type 0 where
    pub rest : s' ≡ with_small s s'.blocks s'.objects
    pub is_small : IsSmall small s'
    pub lowered :
        (q : ℕ) → ((s'.objects q).marked ≡ 0) ⊎ ((s'.objects q).marked ≡ (s.objects q).marked)

  pub Unmarking-refl : (s : GlobalAllocator) → IsSmall small s → Unmarking s s
  Unmarking-refl s w = record { rest = refl; is_small = w; lowered = λ q. inr refl }

  pub Unmarking-trans : {s t u : GlobalAllocator} → Unmarking s t → Unmarking t u → Unmarking s u
  Unmarking-trans {u = u} a b = record {
    rest = b.rest ∙ ap (λ x. with_small x u.blocks u.objects) a.rest;
    is_small = b.is_small;
    lowered = λ q. elim (b.lowered q) [
      | inl cleared ↦ inl cleared
      | inr same ↦ elim (a.lowered q) [
        | inl cleared ↦ inl (same ∙ cleared)
        | inr same' ↦ inr (same ∙ same')
      ]
    ];
  }

  pub stays_clear :
      {s s' : GlobalAllocator} (q : ℕ)
      → Unmarking s s'
      → (s.objects q).marked ≡ 0
      → (s'.objects q).marked ≡ 0
  stays_clear q u clear = elim (u.lowered q) [ inl cleared ↦ cleared | inr same ↦ same ∙ clear ]

  abbrev unmarked_at : GlobalAllocator → ℕ → GlobalAllocator
  unmarked_at s q = write_object s q (Object.unmark (s.objects q))

  unmarked_at-Unmarking :
      (s : GlobalAllocator) (q : ℕ) → IsSmall small s → Unmarking s (unmarked_at s q)
  unfolding write_object Object.unmark
  unmarked_at-Unmarking s q w = record {
    rest = refl;
    is_small = record {
      sizes = λ r. elim (Bool-cases (r == q)) [
        | inl same ↦ rw same (ap (λ x. (s.objects x).size) (sym ((==_iff r q).0 same)) ∙ w.sizes r)
        | inr other ↦ rw other (w.sizes r)
      ];
      atomics = λ r. elim (Bool-cases (r == q)) [
        | inl same ↦
            rw same (ap (λ x. (s.objects x).atomic) (sym ((==_iff r q).0 same)) ∙ w.atomics r)
        | inr other ↦ rw other (w.atomics r)
      ];
      relined = w.relined;
    };
    lowered = λ r. elim (Bool-cases (r == q)) [
      | inl same ↦ rw same (inl refl)
      | inr other ↦ rw other (inr refl)
    ];
  }

  unmarked_at_self : (s : GlobalAllocator) (q : ℕ) → ((unmarked_at s q).objects q).marked ≡ 0
  unfolding write_object Object.unmark
  unmarked_at_self s q = rw (==_refl q) refl

  -- Blocks may change in their marks.
  pub reblocked-Unmarking :
      (s : GlobalAllocator) (block : ℕ) (b : Block)
      → IsSmall small s
      → Relined (s.blocks block) b
      → Unmarking s (record s { blocks = Block.write s.blocks block b })
  unfolding Block.write
  reblocked-Unmarking s block b w relined = record {
    rest = refl;
    is_small = record {
      sizes = w.sizes;
      atomics = w.atomics;
      relined = λ r. elim (Bool-cases (r == block)) [
        | inl same ↦ rw (same, (==_iff r block).0 same) (Relined-trans (w.relined block) relined)
        | inr other ↦ rw other (w.relined r)
      ];
    };
    lowered = λ q. inr refl;
  }

  -- The objects of a line from an offset on.
  unmark_objects-step :
      (rounds : ℕ) (s : GlobalAllocator) (line o : ℕ)
      → line + o < word_mod
      → unmark_objects (suc rounds) s line o ≡ (
          let q = line + o in
          let rest = unmark_objects rounds (unmarked_at s q) line (o + (s.objects q).size) in
          if ltb o line_size then (if (s.objects q).size == 0 then ok s else rest) else ok s)
  unfolding unmark_objects
  unmark_objects-step rounds s line o h = rw (add64-add line o h) refl

  unmark_objects-past :
      (rounds : ℕ) (s : GlobalAllocator) (line o : ℕ)
      → ltb o line_size ≡ false
      → unmark_objects (suc rounds) s line o ≡ ok s
  unfolding unmark_objects
  unmark_objects-past rounds s line o past = rw past refl

  unmark_objects-Unmarking :
      (rounds : ℕ) (s : GlobalAllocator) (line o : ℕ)
      → IsSmall small s
      → line + line_size ≤ word_mod
      → line_size - o < rounds
      → Returns (unmark_objects rounds s line o) λ s'.
        Unmarking s s'
        × ((q : ℕ) → Walk (sizes_of small.objects) line q o → (s'.objects q).marked ≡ 0)
  unmark_objects-Unmarking zero s line o w fits enough = absurd (omega arith)
  unmark_objects-Unmarking (suc rounds) s line o w fits enough =
      elim (Bool-cases (ltb o line_size)) [
        | inr past ↦ (
          s,
          unmark_objects-past rounds s line o past,
          (
            Unmarking-refl s w,
            λ q walk. absurd (differ (sym (lt→ltb o line_size (Walk-lt walk)) ∙ past)),
          ),
        )
        | inl short ↦
            let in_line = ltb→lt o line_size short in
            let step = unmark_objects-step rounds s line o (omega arith) in
            let size = w.sizes (line + o) in
            elim (Bool-cases ((s.objects (line + o)).size == 0)) [
              | inl gap ↦ (
                s,
                step ∙ rw (short, gap) refl,
                (
                  Unmarking-refl s w,
                  λ q walk. absurd (Walk-head walk (sym size ∙ (==_iff _ 0).0 gap)),
                ),
              )
              | inr some_size ↦
                  let ne : (s.objects (line + o)).size ≢ 0 = ground arith in
                  let first = unmarked_at-Unmarking s (line + o) w in
                  let (s', run, (u, cleared)) =
                    unmark_objects-Unmarking rounds (unmarked_at s (line + o)) line
                      (o + (s.objects (line + o)).size) first.is_small fits (omega arith) in
                  (
                    s',
                    step ∙ (rw (short, some_size) refl ∙ run),
                    (
                      Unmarking-trans first u,
                      λ q walk. elim (Walk-cases walk) [
                        | inl e ↦ stays_clear q u (
                            ap (λ x. ((unmarked_at s (line + o)).objects x).marked) e
                            ∙ unmarked_at_self s (line + o))
                        | inr behind ↦ cleared q (
                            subst (λ x. Walk (sizes_of small.objects) line q (o + x)) (sym size)
                              behind)
                      ],
                    ),
                  )
            ]
      ]

  -- The line's own header loses its mark.
  unmarked_line-Relined :
      (b : Block) (i : ℕ)
      → ((j : ℕ) → b.line_headers j < 256)
      → Relined b (set_line_header b i (LineHeader.unmark (b.line_headers i)))
  unfolding set_line_header
  unmarked_line-Relined b i bytes = record {
    flag = refl;
    first_free = refl;
    next = refl;
    same_starts = λ j. elim (Bool-cases (j == i)) [
      | inl same ↦ rw same (rw ((==_iff j i).0 same) ((unmark_lem (b.line_headers i) (bytes i)).1))
      | inr other ↦ rw other refl
    ];
    same_offsets = λ j. elim (Bool-cases (j == i)) [
      | inl same ↦ rw same (rw ((==_iff j i).0 same) ((unmark_lem (b.line_headers i) (bytes i)).2))
      | inr other ↦ rw other refl
    ];
    bytes = λ j. elim (Bool-cases (j == i)) [
      | inl same ↦ rw same ((unmark_lem (b.line_headers i) (bytes i)).3)
      | inr other ↦ rw other (bytes j)
    ];
  }

  -- Every object that stands in the line is unmarked.
  abbrev pub ClearLine : GlobalAllocator → ℕ → ℕ → Type 0
  ClearLine s block i =
      (q : ℕ)
      → starts_of small.blocks block i ≡ true
      → Walk (sizes_of small.objects) (line_at block i) q (offsets_of small.blocks block i)
      → (s.objects q).marked ≡ 0

  pub ClearLine-stays :
      {s s' : GlobalAllocator} (block i : ℕ)
      → Unmarking s s'
      → ClearLine s block i
      → ClearLine s' block i
  ClearLine-stays block i u clear = λ q has walk. stays_clear q u (clear q has walk)

  abbrev lined : GlobalAllocator → ℕ → ℕ → GlobalAllocator
  lined s block i = record s {
    blocks =
        Block.write s.blocks block (
          set_line_header (s.blocks block) i (LineHeader.unmark ((s.blocks block).line_headers i)));
  }

  pub unmark_line-Unmarking :
      (rounds : ℕ) (s : GlobalAllocator) (block i : ℕ)
      → IsSmall small s
      → IsBlock block
      → i < line_count
      → line_size < rounds
      → Returns (unmark_line rounds s block i) λ s'. Unmarking s s' × ClearLine s' block i
  unfolding unmark_line get_offset
  unmark_line-Unmarking rounds s block i w valid short enough =
      let old = (s.blocks block).line_headers i in
      let byte = (w.relined block).bytes i in
      let laws = unmark_lem old byte in
      let first =
        reblocked-Unmarking s block _ w
          (unmarked_line-Relined (s.blocks block) i (w.relined block).bytes) in
      let starts = (w.relined block).same_starts i in
      let offsets = (w.relined block).same_offsets i in
      elim (Bool-cases (contains_object old)) [
        | inr bare ↦ (
          lined s block i,
          rw (laws.1, bare) refl,
          (first, λ q has walk. absurd (differ (sym has ∙ sym starts ∙ bare))),
        )
        | inl has ↦
            let (s', run, (u, cleared)) =
              unmark_objects-Unmarking rounds (lined s block i) (line_at block i)
                (offset_bits (LineHeader.unmark old)) first.is_small (omega (arith, valid.inside))
                (omega arith) in
            (
              s',
              rw (laws.1, has, line-ok valid i short) run,
              (
                Unmarking-trans first u,
                λ q has' walk. cleared q (
                    subst (Walk (sizes_of small.objects) (line_at block i) q)
                      (sym (laws.2 ∙ offsets)) walk),
              ),
            )
      ]
