-- ===== src/MemLifo/Word.antt =====
-- The alignment and pointer macros of twapi/include/twapi.h on a 64-bit build, and the 32-bit
-- arithmetic of the pool's `DWORD` sizes.
use twapi.Base.{ℕ, ◌+◌, ◌-◌, ◌*◌, ◌/◌, ◌%◌, ◌^◌, Bool, ltb, leb, if◌then◌else◌}

-- `ROUNDUP`, on a 64-bit value.
abbrev pub round_up : ℕ → ℕ
round_up x = (x + 7) % 2 ^ 64 / 8 * 8

-- `ROUNDDOWN`
abbrev pub round_down : ℕ → ℕ
round_down x = x / 8 * 8

-- `ADDPTR`
abbrev pub add_ptr : ℕ → ℕ → ℕ
add_ptr p incr = (p + incr) % 2 ^ 64

-- `ALIGNPTR`
abbrev pub align_ptr : ℕ → ℕ → ℕ
align_ptr p offset = round_up ((offset + p) % 2 ^ 64)

-- `SUBPTR`
abbrev pub sub_ptr : ℕ → ℕ → ℕ
sub_ptr p decr = (p + 2 ^ 64 - decr) % 2 ^ 64

-- What the assignment to a `DWORD` keeps.
abbrev pub dword : ℕ → ℕ
dword x = x % 2 ^ 32

-- `PTRDIFF32`, as the 32 bits of the `int`.
abbrev pub ptr_diff32 : ℕ → ℕ → ℕ
ptr_diff32 p q = (p + 2 ^ 64 - q) % 2 ^ 32

-- `<` and `>=` of two `int`s that are given by their 32 bits.
abbrev pub int_lt : ℕ → ℕ → Bool
int_lt a b = ltb ((a + 2 ^ 31) % 2 ^ 32) ((b + 2 ^ 31) % 2 ^ 32)

abbrev pub int_ge : ℕ → ℕ → Bool
int_ge a b = leb ((b + 2 ^ 31) % 2 ^ 32) ((a + 2 ^ 31) % 2 ^ 32)

-- `(int) x / 8`: the division of an `int` rounds towards zero.
abbrev pub int_div8 : ℕ → ℕ
int_div8 x = if ltb x (2 ^ 31) then x / 8 else (2 ^ 32 - (2 ^ 32 - x) / 8) % 2 ^ 32

-- `MEMLIFO_MAX_ALLOC`
abbrev pub max_alloc : ℕ
max_alloc = 2 ^ 31 - 1

-- `sizeof(MemLifoChunk)`: two pointers.
abbrev pub chunk_header : ℕ
chunk_header = 16

-- `sizeof(MemLifoMark)`: two ints and six pointers.
abbrev pub mark_size : ℕ
mark_size = 56
