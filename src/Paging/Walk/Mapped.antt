-- ===== src/Paging/Walk/Mapped.antt =====
-- The words that are written for pages, and the addresses of a page.
use geek_toy_os.Base.{
  ℕ, zero, suc, ◌+◌, ◌*◌, ◌/◌, ◌%◌, ◌^◌, ◌≤◌, ◌<◌, bit_or, true, false, ◌&&◌, ◌==◌, ltb,
  if◌then◌else◌, ◌≡◌, ◌≢◌, refl, ◌∙◌, arith, or_flags, or_high,
}
use geek_toy_os.Base.Bits.{all_below, all_below_sound}
use geek_toy_os.Paging.{level_size, pte_ps}
use geek_toy_os.Paging.Walk.Translate.{part, leads, in_page, is_present-eq, is_large-eq}
use geek_toy_os.Paging.Walk.Write.{IsPage}

abbrev span : (level : ℕ) → ℕ
span level = level_size level

-- Within one block of 48 bits, a page of the level holds the addresses of one part.
pub same_page :
    (level lo a : ℕ)
    → level ≤ 2
    → lo % level_size level ≡ 0
    → a / 2 ^ 48 ≡ lo / 2 ^ 48
    → lo ≤ a
    → a < lo + level_size level
    → part level a ≡ part level lo
unfolding part
same_page zero lo a le even block low high = omega (arith, even, block, low, high)
same_page (suc zero) lo a le even block low high = omega (arith, even, block, low, high)
same_page (suc (suc zero)) lo a le even block low high = omega (arith, even, block, low, high)
same_page (suc (suc (suc level))) lo a le even block low high = absurd (omega (arith, le))

pub other_page :
    (level lo a : ℕ)
    → level ≤ 2
    → lo % level_size level ≡ 0
    → a / 2 ^ 48 ≡ lo / 2 ^ 48
    → part level a ≡ part level lo
    → (lo ≤ a) × (a < lo + level_size level)
unfolding part
other_page zero lo a le even block same = omega (arith, even, block, same)
other_page (suc zero) lo a le even block same = omega (arith, even, block, same)
other_page (suc (suc zero)) lo a le even block same = omega (arith, even, block, same)
other_page (suc (suc (suc level))) lo a le even block same = absurd (omega (arith, le))

or_table :
    all_below 4096 (λ x.
      if ltb (bit_or x 128) 4096
        && bit_or x 128 % 2 == x % 2
        && bit_or x 128 / 128 % 2 == 1
        && bit_or x 0 == x
      then true
      else false)
    ≡ true
unfolding all_below
or_table = refl

-- A frame with flags is the word of a page.
flagged :
    (level paddr g : ℕ)
    → level ≤ 2
    → paddr % level_size level ≡ 0
    → paddr + 4096 ≤ 2 ^ 64
    → g < 4096
    → g % 2 ≡ 1
    → (level ≢ 0 → g / 128 % 2 ≡ 1)
    → IsPage level (paddr + g)
      × ((a : ℕ) → in_page level (paddr + g) a ≡ paddr + a % level_size level)
unfolding leads in_page
flagged zero paddr g le even top small odd big = (
  record {
    here = rw (is_present-eq (paddr + g)) (ground (arith, even, odd));
    stop = λ l h. absurd (omega (arith, h));
    top = omega (arith, top, small);
    even = refl;
  },
  λ a. omega (arith, even, small),
)
flagged (suc level) paddr g le even top small odd big =
    let flat : paddr % 4096 ≡ 0 = ground (arith, even) in
    let large = big (λ e. omega (arith, e)) in
    let low : (paddr + g) % level_size (suc level) ≡ g = ground (arith, even, small, le) in
    (
      record {
        here = rw (is_present-eq (paddr + g)) (ground (arith, flat, odd));
        stop = λ l h.
            let three : (suc l == 3) ≡ false = ground (arith, h, le) in
            rw (is_large-eq (paddr + g), three) (ground (arith, flat, large));
        top = omega (arith, top, small, flat);
        even = rw low (omega (arith, flat, small));
      },
      λ a. omega (arith, low),
    )

-- The word written for a page: its frame, with flags.
pub entry_word :
    (level paddr attr : ℕ)
    → level ≤ 2
    → paddr % level_size level ≡ 0
    → paddr + 4096 ≤ 2 ^ 64
    → attr < 4096
    → attr % 2 ≡ 1
    → let v = bit_or (bit_or paddr attr) (if level == 0 then 0 else pte_ps) in
      IsPage level v × ((a : ℕ) → in_page level v a ≡ paddr + a % level_size level)
entry_word level paddr attr le even top small odd =
    let table = all_below_sound 4096 _ attr or_table small in
    let flat : paddr % 4096 ≡ 0 = ground (arith, even) in
    let frame : paddr / 4096 * 2 ^ 12 ≡ paddr = omega (arith, flat) in
    let ps = if level == 0 then 0 else pte_ps in
    let bits : ps < 2 ^ 12 = ground arith in
    let inner : bit_or paddr attr ≡ paddr / 4096 * 2 ^ 12 + attr =
      or_flags paddr attr flat small ∙ omega (arith, frame) in
    let outer = or_high 12 (paddr / 4096) attr ps small bits in
    let sum : bit_or (bit_or paddr attr) ps ≡ paddr + bit_or attr ps =
      rw inner (rw outer (rw frame refl)) in
    rw sum (
      flagged level paddr (bit_or attr ps) le even top (ground (arith, table))
        (ground (arith, table, odd)) (λ ne. ground (arith, table, ne)))
