-- ===== src/Base/Word.antt =====
-- Machine words as native numbers: casts to a width, shifts, and the macros of lib/const.h.
use Prim.Native.Nat.{ℕ, ◌+◌, ◌-◌, ◌/◌, ◌%◌, ◌^◌}
use geek_toy_os.Base.Tests.{ltb, if◌then◌else◌}

abbrev pub u8 : ℕ → ℕ
u8 n = n % 2 ^ 8

abbrev pub u32 : ℕ → ℕ
u32 n = n % 2 ^ 32

abbrev pub u64 : ℕ → ℕ
u64 n = n % 2 ^ 64

-- `a - b` on `size_t` or `addr_t`.
abbrev pub sub64 : ℕ → ℕ → ℕ
sub64 a b = u64 (a + (2 ^ 64 - u64 b))

-- `a - b` on `u32`.
abbrev pub sub32 : ℕ → ℕ → ℕ
sub32 a b = u32 (a + (2 ^ 32 - u32 b))

-- `div_round_up(x, d)` and `align(x, a)`, `align_down(x, a)` for a power of two `a`, on 64 bits.
abbrev pub div_round_up : ℕ → ℕ → ℕ
div_round_up x d = u64 (x + d - 1) / d

abbrev pub align : ℕ → ℕ → ℕ
align x a = let y = u64 (x + (a - 1)) in y - y % a

abbrev pub align_down : ℕ → ℕ → ℕ
align_down x a = x - x % a

-- An `int` held as its 32-bit pattern, converted to a 64-bit type.
abbrev pub sign_extend : ℕ → ℕ
sign_extend w = if ltb w (2 ^ 31) then w else w + (2 ^ 64 - 2 ^ 32)
