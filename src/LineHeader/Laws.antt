-- ===== src/LineHeader/Laws.antt =====
-- The operations on a line header, for every byte and every offset, from tables of all their values.
use Prim.Native.Nat.{bit_and, bit_or}
use gc.Base.{
  pos, word_mod, ℕ, zero, suc, ◌%◌, ◌<◌, ◌≡◌, refl, sym, Bool, true, false, not, ◌&&◌, ◌||◌, arith,
  ◌==◌, if◌then◌else◌, ok, ltb, ltb→lt, lt→ltb, Returns,
}
use gc.LineHeader.{
  is_marked, mark, unmark, contains_object, set_offset, get_offset, line_size, word_size,
  line_object_offset_mark, line_contains_object,
}

-- Whether a row holds at every number less than `n`.
rows_hold : (ℕ → Bool) → ℕ → Bool
rows_hold row zero = true
rows_hold row (suc n) = if row n then rows_hold row n else false

row_at : (row : ℕ → Bool) (n x : ℕ) → x < n → rows_hold row n ≡ true → row x ≡ true
unfolding rows_hold
row_at row zero x lt table = absurd (omega arith)
row_at row (suc n) x lt table = ground (arith, row_at row n x)

same : Bool → Bool → Bool
same true b = b
same false b = not b

same-eq : (a b : Bool) → same a b ≡ true → a ≡ b
unfolding same
same-eq true b h = sym h
same-eq false true h = h
same-eq false false h = refl

abbrev pub offset_bits : ℕ → ℕ
offset_bits x = bit_and x line_object_offset_mark

abbrev offset_flag : ℕ → ℕ
offset_flag x = bit_or (bit_and x line_object_offset_mark) line_contains_object

mark_row : ℕ → Bool
mark_row x =
    is_marked (mark x)
    && same (contains_object (mark x)) (contains_object x)
    && (offset_bits (mark x) == offset_bits x)
    && ltb (mark x) 256

unmark_row : ℕ → Bool
unmark_row x =
    not (is_marked (unmark x))
    && same (contains_object (unmark x)) (contains_object x)
    && (offset_bits (unmark x) == offset_bits x)
    && ltb (unmark x) 256

-- At an offset that is no multiple of the word size nothing is asked.
offset_row : ℕ → Bool
offset_row x =
    not (x % word_size == 0)
    || (not (is_marked (offset_flag x))
        && contains_object (offset_flag x)
        && (offset_bits (offset_flag x) == x)
        && ltb (offset_flag x) 256)

mark_table : rows_hold mark_row 256 ≡ true
unfolding rows_hold mark_row is_marked mark contains_object same
mark_table = refl

unmark_table : rows_hold unmark_row 256 ≡ true
unfolding rows_hold unmark_row is_marked unmark contains_object same
unmark_table = refl

offset_table : rows_hold offset_row 256 ≡ true
unfolding rows_hold offset_row is_marked contains_object same
offset_table = refl

bounded_row : ℕ → Bool
bounded_row x = ltb (offset_bits x) line_size

bounded_table : rows_hold bounded_row 256 ≡ true
unfolding rows_hold bounded_row
bounded_table = refl

pub offset_bits-lt : (x : ℕ) → x < 256 → offset_bits x < line_size
unfolding bounded_row
offset_bits-lt x h = ltb→lt (offset_bits x) line_size (row_at bounded_row 256 x h bounded_table)

-- Marking a line, whose header is a byte, sets its mark and keeps its object bits; the header stays
-- a byte.
pub mark_lem :
    (x : ℕ)
    → x < 256
    → (is_marked (mark x) ≡ true)
      × (contains_object (mark x) ≡ contains_object x)
      × (offset_bits (mark x) ≡ offset_bits x)
      × (mark x < 256)
unfolding mark_row
mark_lem x h = ground (
  arith,
  row_at mark_row 256 x h mark_table,
  same-eq (contains_object (mark x)) (contains_object x),
)

-- Unmarking a line, whose header is a byte, clears its mark and keeps its object bits; the header
-- stays a byte.
pub unmark_lem :
    (x : ℕ)
    → x < 256
    → (is_marked (unmark x) ≡ false)
      × (contains_object (unmark x) ≡ contains_object x)
      × (offset_bits (unmark x) ≡ offset_bits x)
      × (unmark x < 256)
unfolding unmark_row
unmark_lem x h = ground (
  arith,
  row_at unmark_row 256 x h unmark_table,
  same-eq (contains_object (unmark x)) (contains_object x),
)

-- Setting an offset that is not negative, is a multiple of the word size and lies in the line fails
-- no assertion, and gives a header from which the offset is read back; the header is a byte that
-- has an object and no mark.
pub get_offset-set_offset :
    (flag offset : ℕ)
    → offset < line_size
    → offset % word_size ≡ 0
    → Returns (set_offset flag (pos offset)) λ header.
      (get_offset header ≡ ok offset)
      × (contains_object header ≡ true)
      × (is_marked header ≡ false)
      × (header < 256)
unfolding set_offset get_offset offset_row
get_offset-set_offset flag offset h w =
    let row = row_at offset_row 256 offset h offset_table in
    let small : offset % word_mod ≡ offset = omega arith in
    let facts : (contains_object (offset_flag offset) ≡ true)
        × (is_marked (offset_flag offset) ≡ false)
        × (offset_bits (offset_flag offset) ≡ offset)
        × (offset_flag offset < 256) =
      ground arith in
    (
      offset_flag offset,
      rw (small, w, lt→ltb offset line_size h),
      (rw (facts.0, facts.2), facts.0, facts.1, facts.3),
    )
