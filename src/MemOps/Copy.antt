-- ===== src/MemOps/Copy.antt =====
-- `memcpy` of src/lib/string.c, byte by byte and word by word.
use geek_toy_os.Base.{
  ℕ, zero, suc, ◌+◌, ◌-◌, ◌%◌, ◌^◌, ◌≤◌, ◌<◌, Bool, true, false, ltb, leb, ◌==◌, update, align,
  align_down, ◌≡◌, ◌≢◌, ◌⊎◌, refl, arith, inl, inr, Bool-cases,
}
use native.Mathlib.Nat.{add-zero}
use geek_toy_os.MemOps.{
  Mem, Cursor, copy_word, after_head, head_loop, word_loop, tail_loop, memcpy, signed_count,
}

zero-ltb-suc : (n : ℕ) → ltb 0 (suc n) ≡ true
zero-ltb-suc n = ground arith

-- The first `k` bytes have been copied, as far as `b`, and the memory outside them is as it was.
pub record IsCopied (old : Mem) (dst src b k : ℕ) (m : Mem) : Type 0 where
  pub inside : (i : ℕ) → i < k → i < b → m (dst + i) ≡ old (src + i)
  pub outside : (a : ℕ) → (a < dst) ⊎ (dst + k ≤ a) → m a ≡ old a

-- The bytes are compared up to a bound `b` that may lie past the `n` asked for.
module _ (old : Mem) (dst src n b : ℕ) (fits : n ≤ b) (apart : (dst ≤ src) ⊎ (src + b ≤ dst)) where
  IsCopied-zero : IsCopied old dst src b 0 old
  IsCopied-zero = record { inside = λ i h _. absurd (omega arith); outside = λ a _. refl }

  IsCopied-update :
      (k : ℕ) (m : Mem)
      → k < n
      → IsCopied old dst src b k m
      → IsCopied old dst src b (k + 1) (update m (dst + k) (m (src + k)))
  IsCopied-update k m h c = record {
    inside = λ i p q. ground (arith, c.inside i, c.outside (src + k));
    outside = λ a p. ground (arith, c.outside a);
  }

  IsCopied-word :
      (k : ℕ) (m : Mem)
      → IsCopied old dst src b k m
      → IsCopied old dst src b (k + 8) (copy_word m (dst + k) (src + k))
  unfolding copy_word
  IsCopied-word k m c = record {
    inside = λ i p q.
        ground
          (arith, c.inside i, c.outside (src + i), c.outside (src + k + (dst + i - (dst + k))));
    outside = λ a p. ground (arith, c.outside a);
  }

  -- A destination on a word boundary needs no first byte.
  head_loop-stays :
      (dptr sz d s : ℕ) (m : Mem)
      → dptr ≡ d
      → head_loop dptr sz d s m ≡ record { mem = m; d = d; s = s; sz = sz }
  unfolding head_loop
  head_loop-stays dptr zero d s m e = refl
  head_loop-stays dptr (suc sz) d s m e = ground arith

  -- Where a loop stands after `k` bytes.
  record IsAt (k : ℕ) (c : Cursor) : Type 0 where
    left : c.sz ≡ n - k
    d_at : c.d ≡ dst + k
    s_at : c.s ≡ src + k
    copied : IsCopied old dst src b k c.mem

  head_loop-IsAt :
      (dptr sz k : ℕ) (m : Mem)
      → k + sz ≡ n
      → dst + k ≤ dptr
      → IsCopied old dst src b k m
      → (k' : ℕ) × IsAt k' (head_loop dptr sz (dst + k) (src + k) m)
        × (k' ≤ n)
        × ((k' ≡ n) ⊎ (dst + k' ≡ dptr))
  unfolding head_loop
  head_loop-IsAt dptr zero k m e below c = (
    k,
    record { left = omega arith; d_at = refl; s_at = refl; copied = c },
    omega arith,
    inl (omega arith),
  )
  head_loop-IsAt dptr (suc sz) k m e below c = elim (Bool-cases (ltb (dst + k) dptr)) [
    | inl more ↦ rw more (
        rw (next_at dst) (
          rw (next_at src) (
            head_loop-IsAt dptr sz (k + 1) (update m (dst + k) (m (src + k))) (omega arith)
              (ground arith) (IsCopied-update k m (omega arith) c))))
    | inr done ↦ rw done (
      k,
      record { left = omega arith; d_at = refl; s_at = refl; copied = c },
      omega arith,
      inr (ground arith),
    )
  ]
    where
      next_at : (p : ℕ) → p + k + 1 ≡ p + (k + 1)
      next_at p = omega arith

  word_loop-IsAt :
      (going : Bool) (fuel sz k : ℕ) (m : Mem)
      → sz ≡ n - k
      → sz ≤ fuel
      → k < n + 8
      → IsCopied old dst src b k m
      → (k' : ℕ) × IsAt k' (word_loop going fuel sz (dst + k) (src + k) m)
        × (k' < n + 8)
        × (going ≡ true → n ≤ k')
        × (going ≡ false → k' ≡ k)
        × (k ≤ k')
        × (k' % 8 ≡ k % 8)
  unfolding word_loop
  word_loop-IsAt going zero sz k m e f lt c = (
    k,
    record { left = e; d_at = refl; s_at = refl; copied = c },
    lt,
    λ _. omega arith,
    λ _. refl,
    omega arith,
    refl,
  )
  word_loop-IsAt false (suc fuel) zero k m e f lt c = (
    k,
    record { left = e; d_at = refl; s_at = refl; copied = c },
    lt,
    λ _. omega arith,
    λ _. refl,
    omega arith,
    refl,
  )
  word_loop-IsAt true (suc fuel) zero k m e f lt c = (
    k,
    record { left = e; d_at = refl; s_at = refl; copied = c },
    lt,
    λ _. omega arith,
    λ _. refl,
    omega arith,
    refl,
  )
  word_loop-IsAt false (suc fuel) (suc sz) k m e f lt c = rw (zero-ltb-suc sz) (
    k,
    record { left = e; d_at = refl; s_at = refl; copied = c },
    lt,
    λ h. cc,
    λ _. refl,
    omega arith,
    refl,
  )
  word_loop-IsAt true (suc fuel) (suc sz) k m e f lt c =
      let (k', at, b', all, _, up, same) =
        word_loop-IsAt true fuel (suc sz - 8) (k + 8) (copy_word m (dst + k) (src + k))
          (omega arith) (omega arith) (omega arith) (IsCopied-word k m c) in
      rw (zero-ltb-suc sz)
        (rw (next_at dst) (rw (next_at src) (k', at, b', all, λ h. cc, omega arith, omega arith)))
    where
      next_at : (p : ℕ) → p + k + 8 ≡ p + (k + 8)
      next_at p = omega arith

  tail_loop-IsCopied :
      (sz k : ℕ) (m : Mem)
      → k + sz ≤ n
      → IsCopied old dst src b k m
      → IsCopied old dst src b (k + sz) (tail_loop sz (dst + k) (src + k) m)
  unfolding tail_loop
  tail_loop-IsCopied zero k m e c = rw (add-zero k) c
  tail_loop-IsCopied (suc sz) k m e c = rw (next_at dst) (
      rw (next_at src) (
        rw (shift) (
          tail_loop-IsCopied sz (k + 1) (update m (dst + k) (m (src + k))) (omega arith)
            (IsCopied-update k m (omega arith) c))))
    where
      next_at : (p : ℕ) → p + k + 1 ≡ p + (k + 1)
      next_at p = omega arith

      shift : k + suc sz ≡ k + 1 + sz
      shift = omega arith

  -- The bytes after the first `k`, where the first loop ended for want of bytes.
  after_head-done : (dptr dptr_end d s : ℕ) (m : Mem) → after_head dptr dptr_end 0 d s m ≡ m
  unfolding after_head word_loop tail_loop
  after_head-done dptr dptr_end d s m = ground arith

  after_head-IsCopied :
      (dptr_end k : ℕ) (m : Mem)
      → k ≤ n
      → IsCopied old dst src b k m
      → (k' : ℕ) × IsCopied old dst src b k'
          (after_head (dst + k) dptr_end (n - k) (dst + k) (src + k) m)
        × (n ≤ k')
        × (k' < n + 8)
  unfolding after_head tail_loop word_loop
  after_head-IsCopied dptr_end k m below c = elim (Bool-cases ((src + k) % 8 == 0)) [
    | inr skew ↦
        rw skew
          (k + (n - k), tail_loop-IsCopied (n - k) k m (omega arith) c, omega arith, omega arith)
    | inl even ↦
        let (k', at, b', all, none_, up, same) =
          word_loop-IsAt (ltb (dst + k) dptr_end) (n - k) (n - k) k m refl (omega arith)
            (omega arith) c in
        rw even (
          rw at.left (
            rw at.d_at (
              rw at.s_at (elim (Bool-cases (leb n k')) [
                | inl past ↦ rw (nothing_left k' past) (k', at.copied, ground arith, b')
                | inr short ↦ (
                  k' + (n - k'),
                  tail_loop-IsCopied (n - k') k' _ (ground arith) at.copied,
                  omega arith,
                  ground arith,
                )
              ]))))
  ]
    where
      nothing_left : (j : ℕ) → leb n j ≡ true → n - j ≡ 0
      nothing_left j h = ground arith

  after_head-cursor :
      (dptr dptr_end k : ℕ) (c : Cursor)
      → IsAt k c
      → k ≤ n
      → (k ≡ n) ⊎ (dst + k ≡ dptr)
      → (k' : ℕ) × IsCopied old dst src b k' (after_head dptr dptr_end c.sz c.d c.s c.mem)
        × (n ≤ k')
        × (k' < n + 8)
  after_head-cursor dptr dptr_end k c at kn (inl all) =
      let none_left : c.sz ≡ 0 = omega (arith, at.left) in
      rw none_left (rw after_head-done (n, rw all at at.copied, omega arith, omega arith))
  after_head-cursor dptr dptr_end k c at kn (inr met) =
      rw (at.left, at.d_at, at.s_at, ← met) (after_head-IsCopied dptr_end k c.mem kn at.copied)

  -- With the pointers clear of the top of memory `memcpy` has copied some `k` bytes when it
  -- returns, at least the `n` that were asked for.
  pub memcpy-IsCopied :
      dst + n + 8 ≤ 2 ^ 64
      → n < 2 ^ 63
      → (k : ℕ) × IsCopied old dst src b k (memcpy old dst src n) × (n ≤ k) × (k < n + 8)
  unfolding memcpy
  memcpy-IsCopied top some_ =
      let count : signed_count n ≡ n = ground (arith, some_) in
      rw count (
        let (k, at, kn, stop) =
          rw (add-zero dst, add-zero src) at
            (head_loop-IsAt (align dst 8) n 0 old (omega arith) (omega arith) IsCopied-zero) in
        after_head-cursor (align dst 8) (align_down (dst + n) 8) k _ at kn stop)

  -- With both pointers on a word boundary, whole words are copied: the count is rounded up.
  pub memcpy-IsCopied_words :
      dst + n + 8 ≤ 2 ^ 64
      → n < 2 ^ 63
      → dst % 8 ≡ 0
      → src % 8 ≡ 0
      → 8 ≤ n
      → (k : ℕ) × IsCopied old dst src b k (memcpy old dst src n) × (n ≤ k) × (k % 8 ≡ 0)
  unfolding memcpy after_head tail_loop
  memcpy-IsCopied_words top some_ ed es long =
      rw (count, flat)
        (rw (head_loop-stays dst n dst src old refl) (
          rw src_even (
            rw words (
              let (k', at, b', all, none_, up, same) =
                rw (add-zero dst, add-zero src) at
                  (word_loop-IsAt true n n 0 old (omega arith) (omega arith) (omega arith)
                    IsCopied-zero) in
              whole k' _ at (all refl) (omega arith)))))
    where
      count : signed_count n ≡ n
      count = ground (arith, some_)

      flat : align dst 8 ≡ dst
      flat = omega arith

      src_even : (src % 8 == 0) ≡ true
      src_even = ground arith

      words : ltb dst (align_down (dst + n) 8) ≡ true
      words = ground arith

      whole :
          (k : ℕ) (w : Cursor)
          → IsAt k w
          → n ≤ k
          → k % 8 ≡ 0
          → (k' : ℕ) × IsCopied old dst src b k' (tail_loop w.sz w.d w.s w.mem)
            × (n ≤ k')
            × (k' % 8 ≡ 0)
      whole k w at past even =
          let done : w.sz ≡ 0 = omega (arith, at.left) in rw done (k, at.copied, past, even)

-- `memcpy` writes past the end: with both pointers on a word boundary and eight bytes or more
-- asked for, fewer than 2 ^ 63 and not a multiple of eight, the byte after the destination is
-- overwritten by the one after the source. The destination is not above the source, or above its
-- end by eight bytes or more, and ends eight bytes or more below 2 ^ 64.
pub memcpy_overrun :
    (old : Mem) (dst src n : ℕ)
    → dst + n + 8 ≤ 2 ^ 64
    → n < 2 ^ 63
    → (dst ≤ src) ⊎ (src + n + 8 ≤ dst)
    → dst % 8 ≡ 0
    → src % 8 ≡ 0
    → 8 ≤ n
    → n % 8 ≢ 0
    → memcpy old dst src n (dst + n) ≡ old (src + n)
memcpy_overrun old dst src n top some_ apart ed es long part =
    let (k, c, past, even) =
      memcpy-IsCopied_words old dst src n (n + 1) (omega arith) (omega arith) top some_ ed es
        long in
    c.inside n (omega arith) (omega arith)
