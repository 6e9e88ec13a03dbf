-- ===== src/Format/Digits.antt =====
-- The digits of `printnum` of src/lib/printfmt.c stand for the number.
use geek_toy_os.Base.{
  ℕ, zero, suc, ◌+◌, ◌-◌, ◌*◌, ◌/◌, ◌%◌, ◌≤◌, ◌<◌, true, false, ltb, leb, if◌then◌else◌, List, [],
  ◌∷◌, ◌++◌, ◌≡◌, refl, arith, Bool-cases, inl, inr, ◌∙◌, ap,
}
use native.Mathlib.Nat.{mod-eq_of_lt, div-lt_self, div-add-mod'}
use geek_toy_os.Format.{digit, pads, printnum_loop, printnum}

-- The value of a digit, and the number a text stands for after `acc`.
pub digit_value : ℕ → ℕ
digit_value c = if ltb c 58 then c - 48 else c - 87

unfoldable pub read_number : (base acc : ℕ) → List ℕ → ℕ
read_number base acc [] = acc
read_number base acc (c ∷ cs) = read_number base (acc * base + digit_value c) cs

digit_value-digit : (d : ℕ) → digit_value (digit d) ≡ d
unfolding digit digit_value
digit_value-digit d = ground arith

read_number-append :
    (base acc : ℕ) (xs ys : List ℕ)
    → read_number base acc (xs ++ ys) ≡ read_number base (read_number base acc xs) ys
unfolding read_number
read_number-append base acc [] ys = refl
read_number-append base acc (x ∷ xs) ys = read_number-append base (acc * base + digit_value x) xs ys

zero_digit : (base : ℕ) → 0 * base + digit_value 48 ≡ 0
unfolding digit_value
zero_digit base = omega arith

read_number-pads : (base left : ℕ) → read_number base 0 (pads left 48) ≡ 0
unfolding read_number pads
read_number-pads base zero = refl
read_number-pads base (suc left) =
    ap (λ n. read_number base n (pads left 48)) (zero_digit base) ∙ read_number-pads base left

read_number-last :
    (base acc d : ℕ) (xs : List ℕ)
    → read_number base acc (xs ++ digit d ∷ []) ≡ read_number base acc xs * base + d
read_number-last base acc d xs =
    read_number-append base acc xs (digit d ∷ [])
    ∙ unfold read_number in ap (λ n. read_number base acc xs * base + n) (digit_value-digit d)

printnum_loop_more :
    (fuel num base width padc : ℕ)
    → leb base num ≡ true
    → printnum_loop (suc fuel) num base width padc
      ≡ printnum_loop fuel (num / base) base (width - 1) padc ++ digit (num % base) ∷ []
unfolding printnum_loop
printnum_loop_more fuel num base width padc more = rw more refl

printnum_loop_last :
    (fuel num base width padc : ℕ)
    → leb base num ≡ false
    → printnum_loop fuel num base width padc ≡ pads (width - 1) padc ++ digit (num % base) ∷ []
unfolding printnum_loop
printnum_loop_last zero num base width padc last = refl
printnum_loop_last (suc fuel) num base width padc last = rw last refl

last_step :
    (fuel num base width : ℕ)
    → leb base num ≡ false
    → read_number base 0 (printnum_loop fuel num base width 48) ≡ num
last_step fuel num base width last =
    let one : num % base ≡ num = mod-eq_of_lt {n = num} {m = base} (ground (arith, last)) in
    rw (printnum_loop_last fuel num base width 48 last) (
      read_number-last base 0 (num % base) (pads (width - 1) 48)
      ∙ rw (read_number-pads base (width - 1)) (rw one (omega arith)))

printnum_loop_lem :
    (fuel num base width : ℕ)
    → 2 ≤ base
    → num ≤ fuel
    → read_number base 0 (printnum_loop fuel num base width 48) ≡ num
printnum_loop_lem zero num base width two le =
    last_step zero num base width (ground (arith, two, le))
printnum_loop_lem (suc fuel) num base width two le = elim (Bool-cases (leb base num)) [
  | inr last ↦ last_step (suc fuel) num base width last
  | inl more ↦
      let less : num / base < num =
        div-lt_self {n = num} {k = base} (ground (arith, more, two)) two in
      rw (printnum_loop_more fuel num base width 48 more) (
        read_number-last base 0 (num % base) (printnum_loop fuel (num / base) base (width - 1) 48)
        ∙ rw (printnum_loop_lem fuel (num / base) base (width - 1) two (omega (arith, le, less)))
            (div-add-mod' num base))
]

-- The digits that `printnum` puts, padded with zeros to any width, stand for the number in the
-- base, for every base from 2 to 16.
pub printnum_lem :
    (num base width : ℕ)
    → 2 ≤ base
    → base ≤ 16
    → read_number base 0 (printnum num base width 48) ≡ num
unfolding printnum
printnum_lem num base width two sixteen = printnum_loop_lem num num base width two (omega arith)
