-- ===== src/MemOps/Tests.antt =====
-- The memory routines of src/lib/string.c at concrete addresses.
use geek_toy_os.Base.{ℕ, ◌+◌, ◌≤◌, ◌<◌, ◌≡◌, ◌⊎◌, arith, inl, refl}
use geek_toy_os.MemOps.{Mem, memcpy, memmove}
use geek_toy_os.MemOps.Copy.{memcpy_overrun}
use geek_toy_os.MemOps.Move.{memmove_lem}

-- Byte `a` holds `a`.
abbrev own_address : Mem
own_address a = a

memmove_example :
    ((i : ℕ) → i < 10 → memmove own_address 104 100 10 (104 + i) ≡ 100 + i)
    × ((a : ℕ) → (a < 104) ⊎ (104 + 10 + 8 ≤ a) → memmove own_address 104 100 10 a ≡ a)
memmove_example = memmove_lem own_address 104 100 10 (omega arith) (omega arith) (omega arith)

memcpy_overrun_example : memcpy own_address 64 128 9 (64 + 9) ≡ 128 + 9
memcpy_overrun_example =
    memcpy_overrun own_address 64 128 9 (omega arith) (omega arith) (inl (omega arith)) refl refl
      (omega arith) (λ e. absurd (omega (arith, e)))
