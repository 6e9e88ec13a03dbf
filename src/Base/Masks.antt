-- ===== src/Base/Masks.antt =====
-- `&` with a mask of low or of high bits, and `|` of numbers that share no bit.
use Prim.Native.Nat.{
  ℕ, zero, suc, ◌+◌, ◌-◌, ◌*◌, ◌/◌, ◌%◌, ◌^◌, ◌≤◌, ◌<◌, bit_and, bit_or, bit_or-bitwise,
}
use mathlib.Core.Path.{◌≡◌, refl, sym}
use mathlib.Core.Logic.{inl, inr}
use geek_toy_os.Base.Tests.{leb, Bool-cases}
use native.Mathlib.Omega.{arith}
use native.Mathlib.Nat.{pow-suc, div-div-eq-div-mul, div-add-mod'}
use geek_toy_os.Base.Bits.{bit_and_step, bit_or_step, zero-and, zero-or}

pow-double : (n : ℕ) → 2 ^ suc n ≡ 2 * 2 ^ n
pow-double n = omega (arith, pow-suc 2 n)

pow-positive : (n : ℕ) → 1 ≤ 2 ^ n
pow-positive zero = omega arith
pow-positive (suc n) = omega (arith, pow-positive n, pow-double n)

shifted : (n a : ℕ) → a / 2 / 2 ^ n ≡ a / 2 ^ suc n
shifted n a = rw (pow-double n) (div-div-eq-div-mul a 2 (2 ^ n))

-- The lowest digit and the `n` above it.
low_digits : (n a : ℕ) → a % 2 ^ suc n ≡ a / 2 % 2 ^ n * 2 + a % 2
low_digits n a =
    let same = shifted n a in
    let short = div-add-mod' (a / 2) (2 ^ n) in
    let long = div-add-mod' a (2 ^ suc n) in
    let short' = rw same at short in
    let long' : a / 2 ^ suc n * (2 * 2 ^ n) + a % 2 ^ suc n ≡ a = rw (sym (pow-double n)) long in
    omega (arith, short', long')

pub low_mask : (n a : ℕ) → bit_and a (2 ^ n - 1) ≡ a % 2 ^ n
low_mask zero a = rw (zero-and a) (omega arith)
low_mask (suc n) a =
    let half : (2 ^ suc n - 1) / 2 ≡ 2 ^ n - 1 = omega (arith, pow-double n, pow-positive n) in
    let odd : (2 ^ suc n - 1) % 2 ≡ 1 = omega (arith, pow-double n, pow-positive n) in
    rw (bit_and_step a (2 ^ suc n - 1))
      (rw half (rw odd (rw (low_mask n (a / 2)) (omega (arith, low_digits n a)))))

pow_scaled : (n b : ℕ) → b * 2 ^ suc n ≡ b * 2 ^ n * 2
pow_scaled n b = rw (pow-double n) (omega arith)

half_shift : (n b : ℕ) → (b * 2 ^ suc n / 2 ≡ b * 2 ^ n) × (b * 2 ^ suc n % 2 ≡ 0)
half_shift n b = rw (pow-double n) (omega arith, omega arith)

or_left : (b : ℕ) → bit_or 0 b ≡ b
or_left b = simp bit_or-bitwise refl

pub or_disjoint : (n a b : ℕ) → a < 2 ^ n → bit_or a (b * 2 ^ n) ≡ a + b * 2 ^ n
or_disjoint zero a b h =
    let nothing : a ≡ 0 = omega (arith, h) in rw nothing (omega (arith, or_left (b * 2 ^ 0)))
or_disjoint (suc n) a b h =
    let (half, even) = half_shift n b in
    rw (bit_or_step a (b * 2 ^ suc n)) (
      rw half (
        rw even (
          rw (or_disjoint n (a / 2) b (omega (arith, h, pow-double n)))
            (omega (arith, h, pow-double n, pow_scaled n b)))))

pub high_mask : (n a b : ℕ) → bit_and a (b * 2 ^ n) ≡ bit_and (a / 2 ^ n) b * 2 ^ n
high_mask zero a b =
    let e : b * 2 ^ 0 ≡ b = omega arith in
    let f : a / 2 ^ 0 ≡ a = omega arith in rw (e, f) (omega arith)
high_mask (suc n) a b =
    let (half, even) = half_shift n b in
    rw (bit_and_step a (b * 2 ^ suc n)) (
      rw half (
        rw even (
          rw (high_mask n (a / 2) b)
            (rw (shifted n a) (omega (arith, pow_scaled n (bit_and (a / 2 ^ suc n) b)))))))

or_commutes : (fuel a b : ℕ) → a + b ≤ fuel → bit_or a b ≡ bit_or b a
or_commutes zero a b h =
    let x : a ≡ 0 = omega (arith, h) in let y : b ≡ 0 = omega (arith, h) in rw (x, y) refl
or_commutes (suc fuel) zero zero h = refl
or_commutes (suc fuel) a b h = elim (Bool-cases (leb 1 (a + b))) [
  | inr none_ ↦ or_commutes fuel a b (ground (arith, none_))
  | inl some_ ↦ omega (
    arith,
    bit_or_step a b,
    bit_or_step b a,
    or_commutes fuel (a / 2) (b / 2) (ground (arith, some_, h)),
  )
]

pub or_comm : (a b : ℕ) → bit_or a b ≡ bit_or b a
or_comm a b = or_commutes (a + b) a b (omega arith)

-- `|` of a multiple of 4096 with flags.
pub or_flags : (a b : ℕ) → a % 4096 ≡ 0 → b < 4096 → bit_or a b ≡ a + b
or_flags a b h k =
    let e : a / 4096 * 2 ^ 12 ≡ a = omega (arith, h) in
    let d : bit_or b (a / 4096 * 2 ^ 12) ≡ b + a / 4096 * 2 ^ 12 = or_disjoint 12 b (a / 4096) k in
    let d' = rw e at d in rw (or_comm a b) (omega (arith, d'))

pow-half :
    (n p x : ℕ) → ((p * 2 ^ suc n + x) / 2 ≡ p * 2 ^ n + x / 2) × ((p * 2 ^ suc n + x) % 2 ≡ x % 2)
pow-half n p x = rw (pow_scaled n p) (omega arith, omega arith)

-- `|` of numbers below a power of two leaves the digits above it.
pub or_high :
    (n p x y : ℕ) → x < 2 ^ n → y < 2 ^ n → bit_or (p * 2 ^ n + x) y ≡ p * 2 ^ n + bit_or x y
or_high zero p x y h k =
    let x0 : x ≡ 0 = omega (arith, h) in
    let y0 : y ≡ 0 = omega (arith, k) in
    rw (x0, y0) (omega (arith, zero-or (p * 2 ^ 0 + 0), zero-or 0))
or_high (suc n) p x y h k =
    let (half, odd) = pow-half n p x in
    rw (bit_or_step (p * 2 ^ suc n + x) y) (
      rw (half, odd)
        (omega (
          arith,
          or_high n p (x / 2) (y / 2) (omega (arith, h, pow-double n))
              (omega (arith, k, pow-double n)),
          bit_or_step x y,
          pow_scaled n p,
        )))
