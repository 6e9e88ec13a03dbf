-- ===== src/Strings.antt =====
-- The string functions of src/lib/string.c that read or copy up to a bound or a NUL. Memory is a
-- function from addresses to bytes; a `char` is signed, and an `int` is its 32-bit pattern.
pub mod Bounds
pub mod Copies
mod Tests
use geek_toy_os.Base.{
  ℕ, zero, suc, ◌+◌, ◌-◌, ◌*◌, ◌%◌, ◌^◌, Bool, true, false, not, ◌&&◌, ltb, leb, ◌==◌,
  if◌then◌else◌, update, u32, sub32,
}
use geek_toy_os.MemOps.{Mem}

-- A `char` promoted to `int`.
abbrev pub char_int : ℕ → ℕ
char_int c = if ltb c 128 then c else c + (2 ^ 32 - 256)

pub memcmp : Mem → (p1 p2 size : ℕ) → ℕ
memcmp m p1 p2 zero = 0
memcmp m p1 p2 (suc size) =
    let rest = memcmp m (p1 + 1) (p2 + 1) size in
    if m p1 == m p2 then rest else sub32 (char_int (m p1)) (char_int (m p2))

-- `strlen`; the fuel bounds the string's length.
pub strlen : (fuel : ℕ) → Mem → (p_str cnt : ℕ) → ℕ
strlen zero m p cnt = cnt
strlen (suc fuel) m p cnt =
    let rest = strlen fuel m (p + 1) (u32 (cnt + 1)) in if m p == 0 then cnt else rest

pub strnlen_loop : Mem → (s size n : ℕ) → ℕ
strnlen_loop m s zero n = n
strnlen_loop m s (suc size) n =
    let rest = strnlen_loop m (s + 1) size (u32 (n + 1)) in if m s == 0 then n else rest

pub strnlen : Mem → (s size : ℕ) → ℕ
strnlen m s size = strnlen_loop m s size 0

-- The loop of `strncpy`, with `left` characters to go at index `i`.
pub strncpy_loop : (left : ℕ) → Mem → (dest src i : ℕ) → Mem
strncpy_loop zero m dest src i = m
strncpy_loop (suc left) m dest src i =
    let m' = update m (dest + i) (m (src + i)) in
    let rest = strncpy_loop left m' dest src (i + 1) in if m' (src + i) == 0 then m' else rest

pub strncpy : Mem → (dest src n : ℕ) → Mem
strncpy m dest src n = if dest == 0 then m else if src == 0 then m else strncpy_loop n m dest src 0

-- The loop of `strncmp`, with `left` characters to go at index `i`.
pub strncmp_loop : (left : ℕ) → Mem → (s1 s2 i : ℕ) → ℕ
strncmp_loop zero m s1 s2 i = 0
strncmp_loop (suc left) m s1 s2 i =
    let rest = strncmp_loop left m s1 s2 (i + 1) in
    if m (s1 + i) == m (s2 + i) then rest else sub32 (char_int (m (s1 + i))) (char_int (m (s2 + i)))

pub strncmp : Mem → (s1 s2 n : ℕ) → ℕ
strncmp m s1 s2 n =
    if s1 == 0
    then sub32 (u32 s1) (u32 s2)
    else if s2 == 0
    then sub32 (u32 s1) (u32 s2)
    else strncmp_loop n m s1 s2 0
