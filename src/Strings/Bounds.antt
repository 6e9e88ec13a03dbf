-- ===== src/Strings/Bounds.antt =====
-- What the bounded string functions of src/lib/string.c read and write.
use geek_toy_os.Base.{
  ℕ, zero, suc, ◌+◌, ◌^◌, ◌≤◌, ◌<◌, false, ◌==◌, u32, sub32, ◌≡◌, ◌≢◌, ◌⊎◌, refl, arith, Bool-cases,
  inl, inr, ◌∙◌, ◌↔◌, ==_iff,
}
use native.Mathlib.Numerals.{add-one}
use geek_toy_os.MemOps.{Mem}
use geek_toy_os.Strings.{char_int, memcmp, strnlen_loop, strnlen, strncmp_loop, strncmp}

-- The bytes of the memory are bytes.
abbrev pub AreBytes : Mem → Type 0
AreBytes m = (a : ℕ) → m a < 256

differ : (a b : ℕ) → a < 256 → b < 256 → a ≢ b → sub32 (char_int a) (char_int b) ≢ 0
differ a b p q h = ground (arith, p, q, h)

-- A property of the indexes below `k + 1` from that of 0 and of those moved up by one.
below_suc : (P : ℕ → Type 0) (i k : ℕ) → i < suc k → P 0 → ((j : ℕ) → j < k → P (j + 1)) → P i
below_suc P zero k h first rest = first
below_suc P (suc j) k h first rest = rw add-one at (rest j (omega (arith, h)))

shift : (p j : ℕ) → p + (j + 1) ≡ p + 1 + j
shift p j = omega arith

at_zero : (p : ℕ) → p + 0 ≡ p
at_zero p = omega arith

-- `memcmp` returns 0 exactly when the two areas hold the same bytes.
pub memcmp_lem :
    (m : Mem) (p1 p2 size : ℕ)
    → AreBytes m
    → (memcmp m p1 p2 size ≡ 0) ↔ ((i : ℕ) → i < size → m (p1 + i) ≡ m (p2 + i))
unfolding memcmp
memcmp_lem m p1 p2 zero ok = (λ e i h. absurd (omega (arith, h)), λ f. refl)
memcmp_lem m p1 p2 (suc size) ok = elim (Bool-cases (m p1 == m p2)) [
  | inl same ↦
      let (to, back) = memcmp_lem m (p1 + 1) (p2 + 1) size ok in
      rw same (
        λ e i h.
            below_suc (λ k. m (p1 + k) ≡ m (p2 + k)) i size h
              (rw (at_zero p1) (rw (at_zero p2) ((==_iff _ _).0 same)))
              (λ j hj. rw (shift p1 j) (rw (shift p2 j) (to e j hj))),
        λ f. back (λ j hj. rw (shift p1 j) at (rw (shift p2 j) at (f (j + 1) (omega (arith, hj))))),
      )
  | inr other ↦ rw other (
    λ e. absurd (differ (m p1) (m p2) (ok p1) (ok p2) (ground (arith, other)) e),
    λ f.
        absurd (ground (arith, other, rw (at_zero p1) at (rw (at_zero p2) at (f 0 (omega arith))))),
  )
]

strncmp_loop-memcmp :
    (left : ℕ) (m : Mem) (s1 s2 i : ℕ)
    → strncmp_loop left m s1 s2 i ≡ memcmp m (s1 + i) (s2 + i) left
unfolding strncmp_loop memcmp
strncmp_loop-memcmp zero m s1 s2 i = refl
strncmp_loop-memcmp (suc left) m s1 s2 i =
    let a : s1 + i + 1 ≡ s1 + (i + 1) = omega arith in
    let b : s2 + i + 1 ≡ s2 + (i + 1) = omega arith in
    rw (strncmp_loop-memcmp left m s1 s2 (i + 1)) (rw a (rw b refl))

-- `strncmp` does not stop at a NUL: of two pointers that are not null it compares all `n`
-- characters, as `memcmp` does.
pub strncmp-memcmp :
    (m : Mem) (s1 s2 n : ℕ) → 0 < s1 → 0 < s2 → strncmp m s1 s2 n ≡ memcmp m s1 s2 n
unfolding strncmp
strncmp-memcmp m s1 s2 n a b =
    let p : (s1 == 0) ≡ false = ground (arith, a) in
    let q : (s2 == 0) ≡ false = ground (arith, b) in
    let u : s1 + 0 ≡ s1 = omega arith in
    let v : s2 + 0 ≡ s2 = omega arith in
    rw p (rw q (strncmp_loop-memcmp n m s1 s2 0 ∙ rw u (rw v refl)))

strnlen_loop_lem :
    (m : Mem) (s size n : ℕ)
    → n + size < 2 ^ 32
    → (k : ℕ) × (strnlen_loop m s size n ≡ n + k)
      × (k ≤ size)
      × ((i : ℕ) → i < k → m (s + i) ≢ 0)
      × ((k ≡ size) ⊎ (m (s + k) ≡ 0))
unfolding strnlen_loop
strnlen_loop_lem m s zero n small =
    (0, omega arith, omega arith, λ i h. absurd (omega (arith, h)), inl refl)
strnlen_loop_lem m s (suc size) n small = elim (Bool-cases (m s == 0)) [
  | inl end_ ↦
      rw end_
        (0, omega arith, omega arith, λ i h. absurd (omega (arith, h)), inr (ground (arith, end_)))
  | inr more ↦
      let (k, e, le, before, last) =
        strnlen_loop_lem m (s + 1) size (n + 1) (omega (arith, small)) in
      let u : u32 (n + 1) ≡ n + 1 = omega (arith, small) in
      rw more (
        rw u (
          k + 1,
          e ∙ omega arith,
          omega (arith, le),
          λ i h.
              below_suc (λ j. m (s + j) ≢ 0) i k (omega (arith, h))
                (rw (at_zero s) (ground (arith, more))) (λ j hj. rw (shift s j) (before j hj)),
          elim last [ inl w ↦ inl (omega (arith, w)) | inr z ↦ inr (rw (shift s k) z) ],
        ))
]

-- `strnlen` returns the index of the first NUL of the first `size` characters, or `size` when they
-- hold none.
pub strnlen_lem :
    (m : Mem) (s size : ℕ)
    → size < 2 ^ 32
    → let k = strnlen m s size in
      (k ≤ size) × ((i : ℕ) → i < k → m (s + i) ≢ 0) × ((k ≡ size) ⊎ (m (s + k) ≡ 0))
unfolding strnlen
strnlen_lem m s size small =
    let (k, e, le, before, last) = strnlen_loop_lem m s size 0 (omega (arith, small)) in
    let same : strnlen_loop m s size 0 ≡ k = omega (arith, e) in rw same (le, before, last)
