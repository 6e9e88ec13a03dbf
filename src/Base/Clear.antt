-- ===== src/Base/Clear.antt =====
-- `(p ^ 2^o) & p` clears bit `o` of `p`: the head of the pair of blocks that `p` lies in.
use Prim.Native.Nat.{
  ℕ, zero, suc, ◌+◌, ◌-◌, ◌*◌, ◌/◌, ◌%◌, ◌^◌, ◌≤◌, ◌<◌, bit_and, bit_xor, differ, bit_xor-bitwise,
}
use mathlib.Core.Path.{◌≡◌, refl, ap}
use native.Mathlib.Nat.{pow-suc, mul_comm, div-div-eq-div-mul}
use native.Mathlib.Omega.{arith}
use geek_toy_os.Base.Bits.{bit, bit_and_step, bitwise_step, bit-lt_two}

bit_xor_step : (a b : ℕ) → bit_xor a b ≡ bit_xor (a / 2) (b / 2) * 2 + differ (a % 2) (b % 2)
bit_xor_step a b =
    simp bit_xor-bitwise (bitwise_step (λ rest. rest) differ (λ rest. omega arith) a b)

differ-low : (x y : ℕ) → x < 2 → y < 2 → differ x y ≡ (x + y) % 2
differ-low zero y p q = omega arith
differ-low (suc zero) zero p q = refl
differ-low (suc zero) (suc zero) p q = refl
differ-low (suc zero) (suc (suc y)) p q = absurd (omega arith)
differ-low (suc (suc x)) y p q = absurd (omega arith)

xor-zero : (n a : ℕ) → a ≤ n → bit_xor a 0 ≡ a
xor-zero n zero h = refl
xor-zero zero (suc a) h = absurd (omega arith)
xor-zero (suc n) (suc a) h =
    ground (arith, bit_xor_step (suc a) 0, differ-low (suc a % 2) 0, xor-zero n (suc a / 2))

and_self : (n a : ℕ) → a ≤ n → bit_and a a ≡ a
and_self n zero h = refl
and_self zero (suc a) h = absurd (omega arith)
and_self (suc n) (suc a) h =
    omega (arith, bit_and_step (suc a) (suc a), and_self n (suc a / 2) (omega arith))

-- Half of the flipped number, and its lowest bit.
flip_low : (p : ℕ) → (bit_xor p 1 / 2 ≡ p / 2) × (bit_xor p 1 % 2 ≡ 1 - p % 2)
flip_low p = ground (arith, bit_xor_step p 1, differ-low (p % 2) 1, xor-zero (p / 2) (p / 2))

flip_high :
    (p q : ℕ) → (bit_xor p (q * 2) / 2 ≡ bit_xor (p / 2) q) × (bit_xor p (q * 2) % 2 ≡ p % 2)
flip_high p q =
    let half : q * 2 / 2 ≡ q = omega arith in
    let even : q * 2 % 2 ≡ 0 = omega arith in
    ground (
      arith,
      bit_xor_step p (q * 2),
      differ-low (p % 2) (q * 2 % 2),
      ap (λ (t : ℕ). bit_xor (p / 2) t) half,
    )

pub clear_bit : (o p : ℕ) → bit_and (bit_xor p (2 ^ o)) p + bit p o * 2 ^ o ≡ p
clear_bit zero p =
    ground (arith, bit_and_step (bit_xor p 1) p, flip_low p, and_self (p / 2) (p / 2))
clear_bit (suc o) p = rw (pow-suc 2 o) (
    ground (
      arith,
      bit_and_step (bit_xor p (2 ^ o * 2)) p,
      flip_high p (2 ^ o),
      clear_bit o (p / 2),
      bit-lt_two (p / 2) o,
    ))

pub flip_bit : (o p : ℕ) → bit_xor p (2 ^ o) + bit p o * 2 ^ o ≡ p + (1 - bit p o) * 2 ^ o
flip_bit zero p = ground (arith, flip_low p)
flip_bit (suc o) p =
    rw (pow-suc 2 o) (ground (arith, flip_high p (2 ^ o), flip_bit o (p / 2), bit-lt_two (p / 2) o))

-- The bit is the lowest one of the quotient.
pub bit-eq : (o p : ℕ) → bit p o ≡ p / 2 ^ o % 2
bit-eq zero p = omega arith
bit-eq (suc o) p =
    rw (pow-suc 2 o, mul_comm (2 ^ o) 2, ← div-div-eq-div-mul p 2 (2 ^ o)) (bit-eq o (p / 2))
