-- ===== src/Block/Address.antt =====
-- The addresses of a block, its lines and the pointers into them.
use gc.Base.{
  ℕ, ◌+◌, ◌-◌, ◌*◌, ◌/◌, ◌%◌, ◌≤◌, ◌<◌, ◌≡◌, refl, true, none, some, arith, word_mod, ltb, lt→ltb,
  le→leb, le→ltb, add64-add, ok, Returns, Bool-cases, ◌⊎◌, inl, inr,
}
use gc.LineHeader.{line_size}
use gc.Block.{block_size, line_count, from, start, stop, contains, line_index, line}

-- A block stands at an aligned address and ends inside the address space.
pub record IsBlock (block : ℕ) : Type 0 where
  pub aligned : block % block_size ≡ 0
  pub inside : block + block_size < word_mod

-- The pointer lies in the line `i` of the block.
abbrev pub InLine : ℕ → ℕ → ℕ → Type 0
InLine block i pointer =
    (i < line_count)
    × (block + line_size + i * line_size ≤ pointer)
    × (pointer < block + line_size + i * line_size + line_size)

module _ {block : ℕ} (valid : IsBlock block) where
  pub start_lem : start block ≡ block + line_size
  unfolding start
  start_lem = add64-add block line_size (omega (arith, valid.inside))

  pub stop_lem : stop block ≡ block + block_size
  unfolding stop
  stop_lem = add64-add block block_size valid.inside

  -- Every pointer into an aligned block, to its metadata too, is taken back to the block.
  pub from_lem :
      (pointer : ℕ) → block ≤ pointer → pointer < block + block_size → from pointer ≡ block
  unfolding from
  from_lem pointer lo hi = omega (arith, valid.aligned)

  pub contains_lem :
      (pointer : ℕ)
      → block + line_size ≤ pointer
      → pointer < block + block_size
      → contains block pointer ≡ true
  unfolding contains
  contains_lem pointer lo hi = rw (start_lem, stop_lem) (ground arith)

  pub line-ok : (i : ℕ) → i < line_count → line block i ≡ ok (block + line_size + i * line_size)
  unfolding line
  line-ok i h = rw (
    lt→ltb i line_count h,
    start_lem,
    add64-add (block + line_size) (i * line_size) (omega (arith, valid.inside)),
  )

  -- A pointer into an aligned block gets the index of the line that it lies in, or none if it
  -- points to the metadata; neither fails an assertion.
  pub line_index-InLine :
      (pointer : ℕ)
      → block ≤ pointer
      → pointer < block + block_size
      → Returns (line_index block pointer) λ r.
        ((i : ℕ) × (r ≡ some i) × InLine block i pointer)
        ⊎ ((r ≡ none) × (pointer < block + line_size))
  unfolding line_index
  line_index-InLine pointer lo hi = elim (Bool-cases (ltb pointer (block + line_size))) [
    | inl before ↦ (
      none,
      rw (stop_lem, start_lem, le→leb pointer (block + block_size) (omega arith), before),
      inr (refl, ground arith),
    )
    | inr behind ↦
        let i = (pointer - (block + line_size)) / line_size in
        (
          some i,
          rw (stop_lem, start_lem, le→leb pointer (block + block_size) (omega arith), behind),
          inl (i, refl, let at : block + line_size ≤ pointer = ground arith in omega arith),
        )
  ]

  pub line_index-ok :
      (pointer i : ℕ) → InLine block i pointer → line_index block pointer ≡ ok (some i)
  unfolding line_index
  line_index-ok pointer i at =
      let e : (pointer - (block + line_size)) / line_size ≡ i = omega arith in
      rw (
        stop_lem,
        start_lem,
        le→leb pointer (block + block_size) (omega arith),
        le→ltb (block + line_size) pointer (omega arith),
        e,
      )
