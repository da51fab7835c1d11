-- ===== src/Base/Words.antt =====
-- `size_t` and `uintptr_t`: 64-bit words with their wrap-around written out.
use Prim.Native.Nat.{ℕ, ◌+◌, ◌-◌, ◌%◌, ◌^◌, ◌≤◌, ◌<◌}
use mathlib.Core.Path.{◌≡◌}
use mathlib.Core.Bool.{Bool, true, false}
use gc.Base.Tests.{ltb}
use native.Mathlib.Omega.{arith}

abbrev pub word_mod : ℕ
word_mod = 2 ^ 64

-- A signed number: `n`, or `- n - 1`.
pub data ℤ : Type 0 where
  pos negsuc : ℕ → ℤ

-- What `size_t` makes of it.
abbrev pub to_word : ℤ → ℕ
to_word (pos n) = n % word_mod
to_word (negsuc n) = (word_mod - 1 - n % word_mod) % word_mod

-- `0 <= i` and `i < n`.
abbrev pub is_nonnegative : ℤ → Bool
is_nonnegative (pos n) = true
is_nonnegative (negsuc n) = false

abbrev pub is_less : ℤ → ℕ → Bool
is_less (pos n) m = ltb n m
is_less (negsuc n) m = true

unfoldable pub add64 : ℕ → ℕ → ℕ
add64 a b = (a + b) % word_mod

unfoldable pub sub64 : ℕ → ℕ → ℕ
sub64 a b = (a + word_mod - b) % word_mod

pub add64-add : (a b : ℕ) → a + b < word_mod → add64 a b ≡ a + b
unfolding add64
add64-add a b h = omega arith

pub sub64-sub : (a b : ℕ) → b ≤ a → a < word_mod → sub64 a b ≡ a - b
unfolding sub64
sub64-sub a b h k = omega arith

pub sub64-wrap : (a b : ℕ) → a < b → b ≤ word_mod → sub64 a b ≡ a + word_mod - b
unfolding sub64
sub64-wrap a b h k = omega arith
