-- ===== src/Hpet/Bits.antt =====
-- The bits of the timers' configurations: 2 for the interrupt, 3 for a periodic timer, 4 where it can
-- be periodic, 6 to set the count, 9 to 13 for the line, and one from 32 on for each line it can have.
use geek_toy_os.Base.{
  ℕ, zero, suc, ◌+◌, ◌-◌, ◌*◌, ◌/◌, ◌%◌, ◌^◌, ◌<◌, bit_and, bit_or, Bool, true, not, ◌&&◌, ◌||◌,
  ltb, leb, ◌==◌, if◌then◌else◌, ◌≡◌, refl, ap, ◌∙◌, arith, inl, inr, Bool-cases, high_mask, ==_iff,
}
use native.Mathlib.Nat.{pow-suc}
use geek_toy_os.Base.Bits.{
  bit, bit-lt_two, bit-and, bit-or, bit_and-one, all_below, all_below_sound,
}
use geek_toy_os.Hpet.{usable, clock_cnf, unused_cnf}

-- A single bit of a number, tested with its mask.
mask_bit : (a p : ℕ) (j : ℕ) → p ≡ 2 ^ j → not (bit_and a p == 0) ≡ (a / 2 ^ j % 2 == 1)
mask_bit a p j e =
    let one : bit_and a (1 * 2 ^ j) ≡ bit_and (a / 2 ^ j) 1 * 2 ^ j = high_mask j a 1 in
    let same : p ≡ 1 * 2 ^ j = omega (arith, e) in
    let value : bit_and a p ≡ a / 2 ^ j % 2 * 2 ^ j =
      ap (bit_and a) same ∙ one ∙ ap (λ (t : ℕ). t * 2 ^ j) (bit_and-one (a / 2 ^ j)) in
    elim (Bool-cases (a / 2 ^ j % 2 == 1)) [
      | inl set ↦
          let b : a / 2 ^ j % 2 ≡ 1 = (==_iff _ _).0 set in
          let pos : bit_and a p ≡ 2 ^ j = value ∙ ap (λ (t : ℕ). t * 2 ^ j) b ∙ omega arith in
          rw (set, pos) (ground (arith, power_pos j))
      | inr clear ↦
          let b : a / 2 ^ j % 2 ≡ 0 = ground (arith, clear) in
          let none_ : bit_and a p ≡ 0 = value ∙ ap (λ (t : ℕ). t * 2 ^ j) b ∙ omega arith in
          rw (clear, none_) refl
    ]
  where
    power_pos : (n : ℕ) → 0 < 2 ^ n
    power_pos zero = omega arith
    power_pos (suc n) = omega (arith, power_pos n, pow-suc 2 n)

-- Whether a timer can be periodic and wired to the line.
usable-eq : (gsi cnf : ℕ) → usable gsi cnf ≡ (cnf / 2 ^ 4 % 2 == 1 && cnf / 2 ^ (gsi + 32) % 2 == 1)
unfolding usable
usable-eq gsi cnf =
    rw (mask_bit cnf 0x10 4 refl, mask_bit cnf (2 ^ (gsi + 32)) (gsi + 32) refl) refl

unused_table : all_below 64 (λ j. bit (2 ^ 64 - 1 - 4) j == (if j == 2 then 0 else 1)) ≡ true
unfolding all_below
unused_table = refl

-- A timer put out of use has no interrupt, and all else as it was.
unused_cnf-bit : (cnf j : ℕ) → j < 64 → bit (unused_cnf cnf) j ≡ (if j == 2 then 0 else bit cnf j)
unfolding unused_cnf
unused_cnf-bit cnf j h =
    let mask : bit (2 ^ 64 - 1 - 4) j ≡ (if j == 2 then 0 else 1) = (==_iff _ _).0 (
      all_below_sound 64 (λ j. bit (2 ^ 64 - 1 - 4) j == (if j == 2 then 0 else 1)) j unused_table
        h) in
    bit-and cnf (2 ^ 64 - 1 - 4) j ∙ rw mask (ground (arith, bit-lt_two cnf j))

shifted : (n a j : ℕ) → bit (a * 2 ^ n) j ≡ (if ltb j n then 0 else bit a (j - n))
shifted zero a j =
    let e : a * 2 ^ 0 ≡ a = omega arith in
    let e' : j - 0 ≡ j = omega arith in rw (e, e') (ground arith)
shifted (suc n) a zero =
    let e : a * 2 ^ suc n ≡ a * 2 ^ n * 2 = rw (pow-suc 2 n) (omega arith) in rw e (ground arith)
shifted (suc n) a (suc j) =
    let e : a * 2 ^ suc n / 2 ≡ a * 2 ^ n = rw (pow-suc 2 n) (omega arith) in
    let e' : suc j - suc n ≡ j - n = omega arith in rw (e, e') (ground (arith, shifted n a j))

-- The bits of the masks.
cleared : ℕ → Bool
cleared j = j == 1 || j == 2 || j == 3 || j == 6 || j == 8 || (leb 9 j && leb j 14)

clock_table :
    all_below 64 (λ j.
      (bit (2 ^ 64 - 1 - 0x7F4E) j == (if cleared j then 0 else 1))
      && (bit (8 + 4 + 0x40) j == (if j == 2 || j == 3 || j == 6 then 1 else 0))
      && (bit 0x1f j == (if ltb j 5 then 1 else 0)))
    ≡ true
unfolding all_below cleared
clock_table = refl

-- The clock's timer: it interrupts, is periodic, and its count is set; its line is `gsi`; it is
-- triggered by edges, with the count of 64 bits, and not by messages; all else is as it was.
abbrev pub clock_bit : (gsi cnf j : ℕ) → ℕ
clock_bit gsi cnf j =
    if j == 2 || j == 3 || j == 6
    then 1
    else if leb 9 j && leb j 13
    then bit gsi (j - 9)
    else if j == 1 || j == 8 || j == 14
    then 0
    else bit cnf j

clock_cnf-bit : (gsi cnf j : ℕ) → j < 64 → bit (clock_cnf gsi cnf) j ≡ clock_bit gsi cnf j
unfolding clock_cnf cleared
clock_cnf-bit gsi cnf j h =
    let facts = all_below_sound 64 _ j clock_table h in
    let kept : bit (2 ^ 64 - 1 - 0x7F4E) j ≡ (if cleared j then 0 else 1) = ground (arith, facts) in
    let set : bit (8 + 4 + 0x40) j ≡ (if j == 2 || j == 3 || j == 6 then 1 else 0) =
      ground (arith, facts) in
    let line : bit 0x1f (j - 9) ≡ (if ltb (j - 9) 5 then 1 else 0) =
      ground (arith, all_below_sound 64 _ (j - 9) clock_table (omega (arith, h))) in
    bit-or (bit_or (bit_and cnf (2 ^ 64 - 1 - 0x7F4E)) (8 + 4 + 0x40)) (bit_and gsi 0x1f * 2 ^ 9) j
    ∙ rw
        (
          bit-or (bit_and cnf (2 ^ 64 - 1 - 0x7F4E)) (8 + 4 + 0x40) j,
          bit-and cnf (2 ^ 64 - 1 - 0x7F4E) j,
          shifted 9 (bit_and gsi 0x1f) j,
          bit-and gsi 0x1f (j - 9),
          kept,
          set,
          line,
        )
        (ground (arith, bit-lt_two cnf j, bit-lt_two gsi (j - 9)))

-- What the tests and values of the loop come to, bit by bit: which timers can be the clock, and what
-- the clock and the timers out of use are set to.
pub record IsMeant (gsi : ℕ) : Type 0 where
  pub can : (cnf : ℕ) → usable gsi cnf ≡ (cnf / 2 ^ 4 % 2 == 1 && cnf / 2 ^ (gsi + 32) % 2 == 1)
  pub clock : (cnf j : ℕ) → j < 64 → bit (clock_cnf gsi cnf) j ≡ clock_bit gsi cnf j
  pub unused : (cnf j : ℕ) → j < 64 → bit (unused_cnf cnf) j ≡ (if j == 2 then 0 else bit cnf j)

pub timers-IsMeant : (gsi : ℕ) → IsMeant gsi
timers-IsMeant gsi = record {
  can = usable-eq gsi;
  clock = clock_cnf-bit gsi;
  unused = unused_cnf-bit;
}
