-- ===== src/Collector/Marking/SmallShield.antt =====
-- What the marking of an object does to the lines of its block: the object is shielded from the
-- recycling.
use gc.Base.{
  ℕ, zero, suc, ◌+◌, ◌-◌, ◌*◌, ◌≤◌, ◌<◌, ◌≡◌, refl, sym, ap, ◌∙◌, Bool, true, false, ltb, ◌==◌,
  arith, Bool-cases, inl, inr, ==_iff, ==_refl, ltb→lt, word_mod, add64-add, Returns,
}
use gc.LineHeader
use gc.LineHeader.{line_size}
use gc.LineHeader.Laws.{mark_lem}
use gc.Block
use gc.Block.{Block, Blocks, set_line_header}
use gc.Collector.Small.{mark_lines}
use gc.Collector.Marking.Small.{
  Relined, Relined-trans, Relined-mark_line, line_at, Shielded, Rising, Rising-trans,
  Rising-mark_line,
}

-- The rounds that the lines of an object of at most 8192 bytes take.
abbrev pub line_rounds : ℕ
line_rounds = 34

pub Relined-mark : (b : Block) → ((j : ℕ) → b.line_headers j < 256) → Relined b (Block.mark b)
unfolding Block.mark
Relined-mark b bytes = record {
  flag = refl;
  first_free = refl;
  next = refl;
  same_starts = λ i. refl;
  same_offsets = λ i. refl;
  bytes = bytes;
}

Rising-mark : (b : Block) → Rising b (Block.mark b)
unfolding Block.mark Block.is_marked
Rising-mark b = record { keeps_block = λ e. refl; keeps_lines = λ j e. e }

mark-is_marked : (b : Block) → Block.is_marked (Block.mark b) ≡ true
unfolding Block.mark Block.is_marked
mark-is_marked b = refl

line_self :
    (b : Block) (i : ℕ)
    → b.line_headers i < 256
    → LineHeader.is_marked
        ((set_line_header b i (LineHeader.mark (b.line_headers i))).line_headers i)
      ≡ true
unfolding set_line_header
line_self b i byte = rw (==_refl i) ((mark_lem (b.line_headers i) byte).0)

-- The lines from `i`, which starts at `line`, are marked up to the one that holds the end.
pub record Lined (b : Block) (i line stop : ℕ) (b' : Block) : Type 0 where
  pub relined : Relined b b'
  pub rising : Rising b b'
  pub marked :
      (j : ℕ)
      → i ≤ j
      → line + line_size * (j - i) < stop
      → LineHeader.is_marked (b'.line_headers j) ≡ true

pub mark_lines-Lined :
    (fuel : ℕ) (b : Block) (i line stop : ℕ)
    → ((j : ℕ) → b.line_headers j < 256)
    → line < stop
    → stop ≤ line + line_size * fuel
    → stop + line_size < word_mod
    → Returns (mark_lines fuel b i line stop) (Lined b i line stop)
unfolding mark_lines
mark_lines-Lined zero b i line stop bytes lo hi fits = absurd (omega arith)
mark_lines-Lined (suc fuel) b i line stop bytes lo hi fits =
    let marked = set_line_header b i (LineHeader.mark (b.line_headers i)) in
    let first = Relined-mark_line b i bytes in
    let up = Rising-mark_line b i bytes in
    let self = line_self b i (bytes i) in
    elim (Bool-cases (ltb (line + line_size) stop)) [
      | inl more ↦
          let (b', run, rest) =
            mark_lines-Lined fuel marked (i + 1) (line + line_size) stop first.bytes
              (ltb→lt _ _ more) (omega arith) fits in
          (
            b',
            rw (add64-add line line_size (omega arith), more) run,
            record {
              relined = Relined-trans first rest.relined;
              rising = Rising-trans up rest.rising;
              marked = λ j lo' short. elim (Bool-cases (j == i)) [
                | inl same ↦ rw ((==_iff j i).0 same) (rest.rising.keeps_lines i self)
                | inr other ↦
                    let above : i + 1 ≤ j = ground arith in rest.marked j above (omega arith)
              ];
            },
          )
      | inr last ↦ (
        marked,
        rw (add64-add line line_size (omega arith), last) refl,
        record {
          relined = first;
          rising = up;
          marked = λ j lo' short. elim (Bool-cases (j == i)) [
            | inl same ↦ rw ((==_iff j i).0 same) self
            | inr other ↦
                let above : i + 1 ≤ j = ground arith in
                let stop_le : stop ≤ line + line_size = ground arith in absurd (omega arith)
          ];
        },
      )
    ]

-- What marking the object at `q`, which starts in line `i`, makes of its block.
pub record Marked (b : Block) (block q size : ℕ) (b' : Block) : Type 0 where
  pub relined : Relined b b'
  pub rising : Rising b b'
  pub shielded : Shielded b' block q size

-- An object that ends in its first line or the next one is shielded by its first line alone.
pub Marked-one :
    (b : Block) (block i q size : ℕ)
    → ((j : ℕ) → b.line_headers j < 256)
    → line_at block i ≤ q
    → q < line_at block i + line_size
    → size ≤ line_size
    → Marked b block q size
        (set_line_header (Block.mark b) i (LineHeader.mark ((Block.mark b).line_headers i)))
Marked-one b block i q size bytes lo hi small_size =
    let first = Relined-mark b bytes in
    let up = Rising-mark_line (Block.mark b) i first.bytes in
    let self = line_self (Block.mark b) i (first.bytes i) in
    record {
      relined = Relined-trans first (Relined-mark_line (Block.mark b) i first.bytes);
      rising = Rising-trans (Rising-mark b) up;
      shielded = record {
        block_marked = up.keeps_block (mark-is_marked b);
        lines = λ j pos short e e'. elim (Bool-cases (j == i)) [
          | inl same ↦ absurd (clash self (ap (marks_now b i) (sym ((==_iff j i).0 same)) ∙ e))
          | inr other ↦ elim (Bool-cases (j == i + 1)) [
            | inl next ↦
                let back : i ≡ j - 1 = let z = (==_iff j (i + 1)).0 next in omega arith in
                absurd (clash self (ap (marks_now b i) back ∙ e'))
            | inr far ↦ elim (Bool-cases (ltb j i)) [
              | inl before ↦ let lt = ltb→lt j i before in inr (omega arith)
              | inr behind ↦ let gt : i + 2 ≤ j = ground arith in inl (omega arith)
            ]
          ]
        ];
      };
    }
  where
    clash : {x : Bool} → x ≡ true → x ≡ false → ⊥
    clash e f = cc

    marks_now : Block → ℕ → ℕ → Bool
    marks_now x k j = LineHeader.is_marked (
        (set_line_header (Block.mark x) k
            (LineHeader.mark ((Block.mark x).line_headers k))).line_headers
          j)

-- The lines of a larger object are marked one by one.
pub Marked-many :
    (b b' : Block) (block i q size : ℕ)
    → ((j : ℕ) → b.line_headers j < 256)
    → line_at block i ≤ q
    → Lined (Block.mark b) i (line_at block i) (q + size) b'
    → Marked b block q size b'
Marked-many b b' block i q size bytes lo lined =
    let first = Relined-mark b bytes in
    record {
      relined = Relined-trans first lined.relined;
      rising = Rising-trans (Rising-mark b) lined.rising;
      shielded = record {
        block_marked = lined.rising.keeps_block (mark-is_marked b);
        lines = λ j pos short e e'. elim (Bool-cases (ltb j i)) [
          | inl before ↦ let lt = ltb→lt j i before in inr (omega arith)
          | inr behind ↦
              let ge : i ≤ j = ground arith in
              elim (Bool-cases (ltb (line_at block j) (q + size))) [
                | inl meets ↦
                    let at : line_at block i + line_size * (j - i) < q + size =
                      let lt = ltb→lt _ _ meets in omega arith in
                    cc (lined.marked j ge at)
                | inr past ↦ inl (ground arith)
              ]
        ];
      };
    }
