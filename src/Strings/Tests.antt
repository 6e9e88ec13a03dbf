-- ===== src/Strings/Tests.antt =====
-- The string functions of src/lib/string.c on a concrete memory.
use geek_toy_os.Base.{
  ℕ, ◌+◌, ◌-◌, ◌^◌, ◌≤◌, ◌<◌, ◌==◌, if◌then◌else◌, ◌≡◌, ◌≢◌, ◌⊎◌, ◌↔◌, arith, refl,
}
use geek_toy_os.MemOps.{Mem}
use geek_toy_os.Strings.{memcmp, strnlen, strncmp, strncmp_loop}
use geek_toy_os.Strings.Bounds.{AreBytes, memcmp_lem, strncmp-memcmp, strnlen_lem}

-- At 100 and 200 "ab" and a NUL; behind that `x` at 100 and `y` at 200.
abbrev two_strings : Mem
two_strings a =
    if a == 100
    then 97
    else if a == 200
    then 97
    else if a == 101
    then 98
    else if a == 201
    then 98
    else if a == 103
    then 120
    else if a == 203
    then 121
    else 0

two_strings-AreBytes : AreBytes two_strings
two_strings-AreBytes a = ground arith

memcmp_example :
    (memcmp two_strings 100 200 3 ≡ 0)
    ↔ ((i : ℕ) → i < 3 → two_strings (100 + i) ≡ two_strings (200 + i))
memcmp_example = memcmp_lem two_strings 100 200 3 two_strings-AreBytes

strncmp_example : strncmp two_strings 100 200 4 ≡ memcmp two_strings 100 200 4
strncmp_example = strncmp-memcmp two_strings 100 200 4 (omega arith) (omega arith)

-- The two strings are the same up to the NUL, and `strncmp` of four characters tells them apart.
past_the_end : strncmp two_strings 100 200 4 ≡ 2 ^ 32 - 1
unfolding strncmp strncmp_loop
past_the_end = refl

strnlen_example :
    let k = strnlen two_strings 100 8 in
    (k ≤ 8)
    × ((i : ℕ) → i < k → two_strings (100 + i) ≢ 0)
    × ((k ≡ 8) ⊎ (two_strings (100 + k) ≡ 0))
strnlen_example = strnlen_lem two_strings 100 8 (omega arith)
