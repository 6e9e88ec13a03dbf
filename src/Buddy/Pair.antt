-- ===== src/Buddy/Pair.antt =====
-- A block of src/kernel/mm/buddy.c and its buddy are the halves of a block of the next order.
use geek_toy_os.Base.{
  ℕ, suc, ◌+◌, ◌*◌, ◌/◌, ◌%◌, ◌^◌, ◌≤◌, ◌<◌, bit_and, ◌≡◌, arith, ap, Bool-cases, inl, inr, ◌⊎◌,
  ◌==◌, ==_iff,
}
use native.Mathlib.Nat.{pow-suc, div-add-mod, mul-mod_left}
use native.Mathlib.Numerals.{add-one}
use geek_toy_os.Base.Bits.{bit, bit-lt_two}
use geek_toy_os.Base.Clear.{clear_bit, flip_bit, bit-eq}
use geek_toy_os.Buddy.{find_buddy_pfn}
use geek_toy_os.Buddy.Cover.{holds, holds-pair}

-- The head of the pair of blocks of order `o` that an aligned `pfn` lies in.
pub pair_head :
    (o pfn : ℕ)
    → pfn % 2 ^ o ≡ 0
    → let h = bit_and (find_buddy_pfn pfn o) pfn in
      (h % 2 ^ suc o ≡ 0) × (h ≤ pfn) × (pfn + 2 ^ o ≤ h + 2 ^ suc o)
pair_head o pfn even =
    let odd = pfn / 2 ^ o % 2 in
    let half = pfn / 2 ^ o / 2 in
    let split : pfn ≡ half * (2 ^ o * 2) + odd * 2 ^ o =
      omega
        (arith, div-add-mod pfn (2 ^ o), ap (λ (t : ℕ). t * 2 ^ o) (div-add-mod (pfn / 2 ^ o) 2)) in
    let place : bit_and (find_buddy_pfn pfn o) pfn ≡ half * (2 ^ o * 2) =
      omega (arith, clear_bit o pfn, ap (λ (t : ℕ). t * 2 ^ o) (bit-eq o pfn), split) in
    let small : odd * 2 ^ o ≤ 2 ^ o = at_most_one odd (2 ^ o) (omega arith) in
    rw place (
      rw (pow-suc 2 o)
        (mul-mod_left half (2 ^ o * 2), omega (arith, split), omega (arith, split, small)))
  where
    at_most_one : (x y : ℕ) → x < 2 → x * y ≤ y
    at_most_one x y h = grind arith

-- The freed block and its buddy are the two halves of the pair.
halves :
    (o pfn : ℕ)
    → let b = find_buddy_pfn pfn o in
      let h = bit_and b pfn in ((pfn ≡ h) × (b ≡ h + 2 ^ o)) ⊎ ((b ≡ h) × (pfn ≡ h + 2 ^ o))
halves o pfn = elim (Bool-cases (bit pfn o == 0)) [
  | inl low ↦
      let e : bit pfn o ≡ 0 = (==_iff _ _).0 low in
      let there = rw e at (clear_bit o pfn) in
      let other = rw e at (flip_bit o pfn) in
      inl (omega (arith, there), omega (arith, there, other))
  | inr high ↦
      let e : bit pfn o ≡ 1 = ground (arith, high, bit-lt_two pfn o) in
      let there = rw e at (clear_bit o pfn) in
      let other = rw e at (flip_bit o pfn) in
      inr (omega (arith, there, other), omega (arith, there))
]

-- A frame is in the pair where it is in one of its halves.
pub holds-halves :
    (o pfn f : ℕ)
    → let b = find_buddy_pfn pfn o in holds (o + 1) f (bit_and b pfn) ≡ holds o f pfn + holds o f b
holds-halves o pfn f =
    let b = find_buddy_pfn pfn o in
    let h = bit_and b pfn in
    let pair : holds (o + 1) f h ≡ holds o f h + holds o f (h + 2 ^ o) =
      rw add-one (holds-pair o f h) in
    elim (halves o pfn) [
      | inl (first, second) ↦ omega (arith, pair, ap (holds o f) first, ap (holds o f) second)
      | inr (first, second) ↦ omega (arith, pair, ap (holds o f) first, ap (holds o f) second)
    ]
