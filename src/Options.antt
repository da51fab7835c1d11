-- ===== src/Options.antt =====
-- include/options.h: sizes from environment variables. What `getenv` and `strtoul` give is a parameter:
-- `none` for a variable that is not set, or the value, whether `errno` is ERANGE or any error behind
-- the call, whether no digit was read, and the byte behind the number. The default is converted from
-- `long` without loss.
use gc.Base.{
  ℕ, ◌-◌, ◌*◌, ◌%◌, ◌^◌, Bool, ◌&&◌, ◌||◌, Option, none, some, ◌==◌, if◌then◌else◌, word_mod,
}

pub record Parsed : Type 0 where
  pub value : ℕ
  pub range_error : Bool
  pub error : Bool
  pub no_digits : Bool
  pub suffix : ℕ

abbrev pub ulong_max : ℕ
ulong_max = 2 ^ 64 - 1

unfoldable pub is_invalid : Parsed → Bool
is_invalid p =
    (p.range_error && ((p.value == ulong_max) || (p.value == 0))) || (p.error && (p.value == 0))

-- The switch on the byte behind the number.
unfoldable pub scale : ℕ → ℕ → ℕ
scale suffix value =
    if (suffix == b'k') || (suffix == b'K')
    then value * 1024 % word_mod
    else if (suffix == b'm') || (suffix == b'M')
    then value * 1024 * 1024 % word_mod
    else (if (suffix == b'g') || (suffix == b'G')
        then value * 1024 * 1024 * 1024 % word_mod
        else value)

unfoldable pub get_size_from_environment_variable : Option Parsed → ℕ → ℕ
unfolding is_invalid scale
get_size_from_environment_variable none default_value = default_value
get_size_from_environment_variable (some p) default_value =
    if is_invalid p || p.no_digits then default_value else scale p.suffix p.value

unfoldable pub get_integer_from_environment_variable : Option Parsed → ℕ → ℕ
unfolding is_invalid
get_integer_from_environment_variable none default_value = default_value
get_integer_from_environment_variable (some p) default_value =
    if is_invalid p then default_value else p.value

abbrev pub default_initial_heap_size : ℕ
default_initial_heap_size = 4 * 1024 * 1024

abbrev pub default_free_space_divisor : ℕ
default_free_space_divisor = 3

unfoldable pub initial_heap_size : Option Parsed → ℕ
initial_heap_size variable = get_size_from_environment_variable variable default_initial_heap_size

-- The default is the machine's memory, by `sysconf`.
unfoldable pub maximum_heap_size : Option Parsed → ℕ → ℕ
maximum_heap_size variable memory_limit = get_size_from_environment_variable variable memory_limit

unfoldable pub free_space_divisor : Option Parsed → ℕ
free_space_divisor variable =
    get_integer_from_environment_variable variable default_free_space_divisor
