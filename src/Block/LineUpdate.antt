-- ===== src/Block/LineUpdate.antt =====
-- `Line_update`, which records the first object of a line.
use gc.Base.{
  ℕ, ◌+◌, ◌-◌, ◌*◌, ◌%◌, ◌<◌, ◌≡◌, ◌≢◌, refl, true, false, arith, lt→ltb, le→leb, ok, Returns,
  Bool-cases, inl, inr,
}
use gc.LineHeader.{line_size, word_size, get_offset, contains_object}
use gc.LineHeader.Laws.{get_offset-set_offset}
use gc.Block.{Block, line_count, line_header, set_line_header, record_offset, line_update}
use gc.Block.Address.{IsBlock, InLine, line-ok, line_index-ok, contains_lem}

-- The headers of a block say of every line that has an object where its first one starts.
abbrev pub HasOffset : Block → ℕ → ℕ → Type 0
HasOffset b i offset =
    (contains_object (b.line_headers i) ≡ true) × (get_offset (b.line_headers i) ≡ ok offset)

-- What an update for an object in line `i` comes to: a line with an object is left alone, any other
-- gets the object's offset; the other lines and the other fields stay.
pub record Updated (block : ℕ) (self : Block) (object i : ℕ) (self' : Block) : Type 0 where
  pub kept : contains_object (self.line_headers i) ≡ true → self' ≡ self
  pub first :
      contains_object (self.line_headers i) ≡ false
      → HasOffset self' i (object - (block + line_size + i * line_size))
  pub others : (j : ℕ) → j ≢ i → self'.line_headers j ≡ self.line_headers j
  pub marked : self'.marked ≡ self.marked
  pub flag : self'.flag ≡ self.flag
  pub next : self'.next ≡ self.next
  pub first_free : self'.first_free_line_index ≡ self.first_free_line_index

module _ {block : ℕ} (valid : IsBlock block) (self : Block) (object i : ℕ) where
  stored-Updated :
      (header : ℕ)
      → contains_object (self.line_headers i) ≡ false
      → contains_object header ≡ true
      → get_offset header ≡ ok (object - (block + line_size + i * line_size))
      → Updated block self object i (set_line_header self i header)
  unfolding set_line_header
  stored-Updated header new holds gets = record {
    kept = λ e. cc;
    first = λ _. (ground arith, ground arith);
    others = λ j h. ground arith;
    marked = refl;
    flag = refl;
    next = refl;
    first_free = refl;
  }

  record_offset-Updated :
      InLine block i object
      → object % word_size ≡ 0
      → Returns (record_offset block self object i) (Updated block self object i)
  unfolding record_offset line_header
  record_offset-Updated at word =
      let a = block + line_size + i * line_size in
      let below : object - a < line_size = omega arith in
      let (header, run, (gets, holds, _, _)) =
        get_offset-set_offset (self.line_headers i) (object - a) below
          (omega (arith, valid.aligned)) in
      elim (Bool-cases (contains_object (self.line_headers i))) [
        | inl old ↦ (
          self,
          rw (lt→ltb i line_count at.0, line-ok valid i at.0, old),
          record {
            kept = λ _. refl;
            first = λ e. cc;
            others = λ j h. refl;
            marked = refl;
            flag = refl;
            next = refl;
            first_free = refl;
          },
        )
        | inr new ↦ (
          set_line_header self i header,
          rw (
            lt→ltb i line_count at.0,
            line-ok valid i at.0,
            new,
            le→leb a object at.1,
            lt→ltb (object - a) line_size below,
            run,
          ),
          stored-Updated header new holds gets,
        )
      ]

  -- For a word aligned object in a line of an aligned block, the update fails no assertion. It
  -- leaves the block alone if the line has an object already; otherwise the line's header now has
  -- the object's offset in the line; the other lines and the other fields stay.
  pub line_update-Updated :
      InLine block i object
      → object % word_size ≡ 0
      → Returns (line_update block self object) (Updated block self object i)
  unfolding line_update
  line_update-Updated at word =
      let (self', run, u) = record_offset-Updated at word in
      (
        self',
        rw (
          contains_lem valid object (omega arith) (omega arith),
          line_index-ok valid object i at,
          run,
        ),
        u,
      )
