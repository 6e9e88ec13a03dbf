-- ===== src/Base/Bits.antt =====
-- Single bits of `&`, `|` and `^` at every position, by the recursion on binary digits that the
-- native operations stand for.
use Prim.Native.Nat.{
  ℕ, zero, suc, ◌+◌, ◌*◌, ◌/◌, ◌%◌, ◌≤◌, ◌<◌, min, max, bit_and, bit_or, digits, bitwise,
  bit_and-bitwise, bit_or-bitwise,
}
use mathlib.Core.Path.{◌≡◌, refl, ap, ◌∙◌}
use mathlib.Core.Logic.{inl, inr}
use mathlib.Core.Bool.{Bool, true, false}
use native.Mathlib.Omega.{arith}
use geek_toy_os.Base.Tests.{◌==◌, ==_iff, if◌then◌else◌, Bool-cases}

-- Bit `j` of `a`, as 0 or 1.
abbrev pub bit : ℕ → ℕ → ℕ
bit a zero = a % 2
bit a (suc j) = bit (a / 2) j

pub bit-lt_two : (a j : ℕ) → bit a j < 2
bit-lt_two a zero = omega arith
bit-lt_two a (suc j) = bit-lt_two (a / 2) j

pub zero-bit : (j : ℕ) → bit 0 j ≡ 0
zero-bit zero = refl
zero-bit (suc j) = zero-bit j

-- The digits of an operation `op`, where `over` is the rest once the first number has run out and
-- agrees with `op` on zeros.
module _ (over : ℕ → ℕ) (op : ℕ → ℕ → ℕ)
    (agrees : (b : ℕ) → over b ≡ over (b / 2) * 2 + op 0 (b % 2)) where
  one_more : (fuel a b : ℕ) → a ≤ fuel → digits over op (suc fuel) a b ≡ digits over op fuel a b
  one_more zero zero b h = refl
  one_more zero (suc a) b h = absurd (omega (arith, h))
  one_more (suc fuel) zero b h = refl
  one_more (suc fuel) (suc a) b h =
      ap (λ n. n * 2 + op (suc a % 2) (b % 2))
        (one_more fuel (suc a / 2) (b / 2) (omega (arith, h)))

  -- Any fuel from the number on gives the result of `bitwise`.
  settled : (fuel a b : ℕ) → a ≤ fuel → digits over op fuel a b ≡ bitwise over op a b
  settled zero a b h = let none_ : a ≡ 0 = omega (arith, h) in rw none_ refl
  settled (suc fuel) a b h = elim (Bool-cases (a == suc fuel)) [
    | inl full ↦ let same : a ≡ suc fuel = (==_iff a (suc fuel)).0 full in rw same refl
    | inr spare ↦
        let low : a ≤ fuel = ground (arith, h, spare) in
        one_more fuel a b low ∙ settled fuel a b low
  ]

  pub bitwise_step :
      (a b : ℕ) → bitwise over op a b ≡ bitwise over op (a / 2) (b / 2) * 2 + op (a % 2) (b % 2)
  bitwise_step zero b = agrees b
  bitwise_step (suc a) b =
      ap (λ n. n * 2 + op (suc a % 2) (b % 2)) (settled a (suc a / 2) (b / 2) (omega arith))

pub bit_or_step : (a b : ℕ) → bit_or a b ≡ bit_or (a / 2) (b / 2) * 2 + max (a % 2) (b % 2)
bit_or_step a b = simp bit_or-bitwise (bitwise_step (λ rest. rest) max (λ rest. omega arith) a b)

pub bit_and_step : (a b : ℕ) → bit_and a b ≡ bit_and (a / 2) (b / 2) * 2 + min (a % 2) (b % 2)
bit_and_step a b = simp bit_and-bitwise (bitwise_step (λ rest. 0) min (λ rest. omega arith) a b)

pub bit-or : (a b j : ℕ) → bit (bit_or a b) j ≡ max (bit a j) (bit b j)
bit-or a b zero = omega (arith, bit_or_step a b)
bit-or a b (suc j) =
    let half : bit_or a b / 2 ≡ bit_or (a / 2) (b / 2) = omega (arith, bit_or_step a b) in
    rw half (bit-or (a / 2) (b / 2) j)

pub bit-and : (a b j : ℕ) → bit (bit_and a b) j ≡ min (bit a j) (bit b j)
bit-and a b zero = omega (arith, bit_and_step a b)
bit-and a b (suc j) =
    let half : bit_and a b / 2 ≡ bit_and (a / 2) (b / 2) = omega (arith, bit_and_step a b) in
    rw half (bit-and (a / 2) (b / 2) j)

-- The `left` values from `start` on pass a test, found by evaluation.
abbrev checked_from : (left start : ℕ) → (ℕ → Bool) → Bool
checked_from zero start p = true
checked_from (suc left) start p =
    let rest = checked_from left (suc start) p in if p start then rest else false

unfoldable pub all_below : ℕ → (ℕ → Bool) → Bool
all_below n p = checked_from n 0 p

checked_from_sound :
    (left start : ℕ) (p : ℕ → Bool) (x : ℕ)
    → checked_from left start p ≡ true
    → start ≤ x
    → x < start + left
    → p x ≡ true
checked_from_sound zero start p x h low high = absurd (omega (arith, low, high))
checked_from_sound (suc left) start p x h low high = elim (Bool-cases (p start)) [
  | inr fails ↦ absurd (ground (arith, rw fails at h))
  | inl passes ↦ elim (Bool-cases (x == start)) [
    | inl here ↦ let same : x ≡ start = (==_iff x start).0 here in rw same passes
    | inr later ↦
        checked_from_sound left (suc start) p x (rw passes at h) (ground (arith, low, later))
          (omega (arith, high))
  ]
]

pub all_below_sound : (n : ℕ) (p : ℕ → Bool) (x : ℕ) → all_below n p ≡ true → x < n → p x ≡ true
unfolding all_below
all_below_sound n p x h high = checked_from_sound n 0 p x h (omega arith) (omega (arith, high))

no_digits : (fuel a : ℕ) → digits (λ rest. 0) min fuel a 0 ≡ 0
no_digits zero a = refl
no_digits (suc fuel) zero = refl
no_digits (suc fuel) (suc a) = omega (arith, no_digits fuel (suc a / 2))

pub zero-and : (a : ℕ) → bit_and a 0 ≡ 0
zero-and a = simp bit_and-bitwise (no_digits a a)

pub bit_and-one : (a : ℕ) → bit_and a 1 ≡ a % 2
bit_and-one a = omega (arith, bit_and_step a 1, zero-and (a / 2))

own_digits : (fuel a : ℕ) → a ≤ fuel → digits (λ rest. rest) max fuel a 0 ≡ a
own_digits zero a h = omega (arith, h)
own_digits (suc fuel) zero h = refl
own_digits (suc fuel) (suc a) h = omega (arith, own_digits fuel (suc a / 2) (omega (arith, h)))

pub zero-or : (a : ℕ) → bit_or a 0 ≡ a
zero-or a = simp bit_or-bitwise (own_digits a a (omega arith))

pub bit_or-one : (a : ℕ) → bit_or a 1 ≡ a / 2 * 2 + 1
bit_or-one a = omega (arith, bit_or_step a 1, zero-or (a / 2))
