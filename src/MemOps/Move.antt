-- ===== src/MemOps/Move.antt =====
-- `memmove` of src/lib/string.c: the copy goes from the end when the destination lies in the source.
use geek_toy_os.Base.{
  ℕ, zero, suc, ◌+◌, ◌-◌, ◌^◌, ◌≤◌, ◌<◌, leb, sub64, ◌≡◌, ◌⊎◌, refl, arith, inl, inr, Bool-cases,
}
use geek_toy_os.MemOps.{Mem, back_loop, memmove}
use geek_toy_os.MemOps.Copy.{memcpy-IsCopied}

-- The last bytes, from index `k` on, have been copied.
record IsCopiedFrom (old : Mem) (dst src n k : ℕ) (m : Mem) : Type 0 where
  inside : (i : ℕ) → k ≤ i → i < n → m (dst + i) ≡ old (src + i)
  outside : (a : ℕ) → (a < dst + k) ⊎ (dst + n ≤ a) → m a ≡ old a

module _ (old : Mem) (dst src n : ℕ) (ahead : src ≤ dst) where
  back_loop-IsCopiedFrom :
      (k : ℕ) (m : Mem)
      → k ≤ n
      → IsCopiedFrom old dst src n k m
      → IsCopiedFrom old dst src n 0 (back_loop k (dst + k) (src + k) m)
  unfolding back_loop
  back_loop-IsCopiedFrom zero m h c = c
  back_loop-IsCopiedFrom (suc k) m h c = rw (back_at dst) (
      rw (back_at src) (
        back_loop-IsCopiedFrom k _ (omega arith) (record {
          inside = λ i p q. ground (arith, c.inside i, c.outside (src + k));
          outside = λ a p. ground (arith, c.outside a);
        })))
    where
      back_at : (p : ℕ) → p + suc k - 1 ≡ p + k
      back_at p = omega arith

-- For every two ranges of `n` bytes, apart or overlapping, `memmove` leaves in the destination
-- what the source held before the call, and changes no byte below the destination nor eight
-- bytes or more past its end. The ranges end clear of the top of the address space, and `n` is below
-- 2 ^ 63: a larger count is negative in `memcpy`.
pub memmove_lem :
    (old : Mem) (dst src n : ℕ)
    → dst + n + 8 ≤ 2 ^ 64
    → src + n + 8 ≤ 2 ^ 64
    → n < 2 ^ 63
    → ((i : ℕ) → i < n → memmove old dst src n (dst + i) ≡ old (src + i))
      × ((a : ℕ) → (a < dst) ⊎ (dst + n + 8 ≤ a) → memmove old dst src n a ≡ old a)
unfolding memmove
memmove_lem old dst src n dtop stop some_ = elim (Bool-cases (leb n (sub64 dst src))) [
  | inl forward ↦
      let (k, c, past, short) =
        memcpy-IsCopied old dst src n n (omega arith) (ground arith) dtop some_ in
      rw forward (λ i h. c.inside i (omega arith) h, λ a h. c.outside a (omega arith))
  | inr back ↦
      let c =
        back_loop-IsCopiedFrom old dst src n (ground arith) n old (omega arith)
          (record { inside = λ i p q. absurd (omega arith); outside = λ a _. refl }) in
      rw back (λ i h. c.inside i (omega arith) h, λ a h. c.outside a (omega arith))
]
