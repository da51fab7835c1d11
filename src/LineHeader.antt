-- ===== src/LineHeader.antt =====
-- include/line_header.h: the byte that describes one line of a block. Bit 0 is the mark, bit 1 says
-- that an object starts in the line, and the other six bits hold the first object's offset.
pub mod Laws
use Prim.Native.Nat.{bit_and, bit_or}
use gc.Base.{
  ℤ, to_word, is_nonnegative, is_less, ℕ, ◌-◌, ◌%◌, ◌^◌, Bool, ltb, ◌==◌, Run, ok, ◌>>=◌, ◌>>◌,
  assert,
}

abbrev pub line_size : ℕ
line_size = 256

abbrev pub word_size : ℕ
word_size = 8

abbrev pub line_empty : ℕ
line_empty = 0

abbrev pub line_marked : ℕ
line_marked = 1

abbrev pub line_contains_object : ℕ
line_contains_object = 2

abbrev pub line_object_offset_mark : ℕ
line_object_offset_mark = 0xFC

unfoldable pub clear : ℕ → ℕ
clear flag = line_empty

unfoldable pub is_marked : ℕ → Bool
is_marked flag = bit_and flag line_marked == line_marked

unfoldable pub mark : ℕ → ℕ
mark flag = bit_or flag line_marked

-- `~LINE_MARKED`, cut to the byte that it is stored in.
unfoldable pub unmark : ℕ → ℕ
unmark flag = bit_and flag (2 ^ 8 - 1 - line_marked)

unfoldable pub contains_object : ℕ → Bool
contains_object flag = bit_and flag line_contains_object == line_contains_object

unfoldable pub set_offset : ℕ → ℤ → Run ℕ
set_offset flag offset =
    assert (to_word offset % word_size == 0)
    >> assert (is_nonnegative offset)
    >> assert (is_less offset line_size)
    >> ok (bit_or (bit_and (to_word offset) line_object_offset_mark) line_contains_object)

unfoldable pub get_offset : ℕ → Run ℕ
get_offset flag = assert (contains_object flag) >> ok (bit_and flag line_object_offset_mark)
