-- ===== src/Bitmap/Byte.antt =====
-- The bits of one byte under the masks of src/lib/bitmap.c.
use geek_toy_os.Base.{
  ℕ, zero, suc, ◌-◌, ◌/◌, ◌%◌, ◌<◌, bit_and, bit_or, Bool, true, false, not, ◌&&◌, ◌||◌, ltb, leb,
  ◌==◌, if◌then◌else◌, u8, ◌≡◌, ◌≢◌, refl, arith, ==_iff, ap,
}
use geek_toy_os.Base.Bits.{zero-bit, bit, bit-lt_two, bit-or, bit-and, all_below, all_below_sound}
use geek_toy_os.Bitmap.{not32, head_mask, tail_mask, same_mask, put, filtered, skip, trailing_ones}

abbrev pub bit_of : Bool → ℕ
bit_of b = if b then 1 else 0

-- The low eight bits survive the cast to `u8`.
pub bit-u8 : (x j : ℕ) → j < 8 → bit (u8 x) j ≡ bit x j
bit-u8 x zero h = omega arith
bit-u8 x (suc zero) h = omega arith
bit-u8 x (suc (suc zero)) h = omega arith
bit-u8 x (suc (suc (suc zero))) h = omega arith
bit-u8 x (suc (suc (suc (suc zero)))) h = omega arith
bit-u8 x (suc (suc (suc (suc (suc zero))))) h = omega arith
bit-u8 x (suc (suc (suc (suc (suc (suc zero)))))) h = omega arith
bit-u8 x (suc (suc (suc (suc (suc (suc (suc zero))))))) h = omega arith
bit-u8 x (suc (suc (suc (suc (suc (suc (suc (suc j)))))))) h = absurd (omega arith)

module _ (p : ℕ → ℕ → Bool) where
  grid : ℕ → ℕ → Bool
  grid m n = all_below m (λ k. all_below n (λ j. p k j))

  grid_sound : (m n k j : ℕ) → grid m n ≡ true → k < m → j < n → p k j ≡ true
  unfolding grid
  grid_sound m n k j h km jn =
      all_below_sound n (λ i. p k i) j (all_below_sound m (λ i. all_below n (λ j. p i j)) k h km) jn

head_table : grid (λ k j. bit (head_mask k) j == bit_of (leb (8 - k) j)) 8 8 ≡ true
unfolding grid all_below head_mask
head_table = refl

pub bit-head_mask : (k j : ℕ) → k < 8 → j < 8 → bit (head_mask k) j ≡ bit_of (leb (8 - k) j)
bit-head_mask k j p q = (==_iff _ _).0 (grid_sound _ 8 8 k j head_table p q)

tail_table : grid (λ k j. bit (tail_mask k) j == bit_of (ltb j k)) 8 8 ≡ true
unfolding grid all_below tail_mask
tail_table = refl

pub bit-tail_mask : (k j : ℕ) → k < 8 → j < 8 → bit (tail_mask k) j ≡ bit_of (ltb j k)
bit-tail_mask k j p q = (==_iff _ _).0 (grid_sound _ 8 8 k j tail_table p q)

same_table :
    all_below 8 (λ i. grid (λ k j. bit (same_mask i k) j == bit_of (leb (8 - i) j && ltb j k)) 8 8)
    ≡ true
unfolding grid all_below same_mask
same_table = refl

pub bit-same_mask :
    (i k j : ℕ) → i < 8 → k < 8 → j < 8 → bit (same_mask i k) j ≡ bit_of (leb (8 - i) j && ltb j k)
bit-same_mask i k j o p q =
    (==_iff _ _).0 (grid_sound _ 8 8 k j (all_below_sound 8 _ i same_table o) p q)

not_table : grid (λ m j. bit (not32 m) j == (1 - bit m j)) 256 8 ≡ true
unfolding grid all_below
not_table = refl

pub bit-not32 : (m j : ℕ) → m < 256 → j < 8 → bit (not32 m) j ≡ 1 - bit m j
bit-not32 m j p q = (==_iff _ _).0 (grid_sound _ 256 8 m j not_table p q)

-- `put` sets the bits of the mask to the value, and leaves the others.
pub bit-put :
    (v : Bool) (m b j : ℕ)
    → m < 256
    → j < 8
    → bit (put v m b) j ≡ (if bit m j == 1 then bit_of v else bit b j)
unfolding put
bit-put true m b j p q =
    ground (arith, bit-u8 (bit_or b m) j, bit-or b m j, bit-lt_two b j, bit-lt_two m j)
bit-put false m b j p q = ground (
  arith,
  bit-u8 (bit_and b (not32 m)) j,
  bit-and b (not32 m) j,
  bit-not32 m j,
  bit-lt_two b j,
  bit-lt_two m j,
)

-- Bit `i` of an array of bytes.
abbrev pub bit_at : (ℕ → ℕ) → ℕ → ℕ
bit_at m i = bit (m (i / 8)) (i % 8)

ones_table :
    all_below 255 (λ b.
      ltb (trailing_ones 8 b) 8
      && bit b (trailing_ones 8 b) == 0
      && all_below 8 (λ j. not (ltb j (trailing_ones 8 b)) || bit b j == 1))
    ≡ true
unfolding all_below trailing_ones
ones_table = refl

-- In a byte with a 0 bit the loop stops at the lowest one.
pub trailing_ones_lem :
    (b : ℕ)
    → b < 255
    → (trailing_ones 8 b < 8)
      × (bit b (trailing_ones 8 b) ≡ 0)
      × ((j : ℕ) → j < trailing_ones 8 b → bit b j ≡ 1)
trailing_ones_lem b h =
    let t = all_below_sound 255 _ b ones_table h in
    (
      ground (arith, t),
      ground (arith, t),
      λ j p.
          ground
            (arith, t, all_below_sound 8 (λ j. not (ltb j (trailing_ones 8 b)) || bit b j == 1) j),
    )

-- A byte that filters to `skip` has no bit with the value under the mask.
pub filtered-skip :
    (v : Bool) (m b j : ℕ)
    → m < 256
    → j < 8
    → bit m j ≡ 1
    → filtered v m b ≡ skip v
    → bit b j ≢ bit_of v
unfolding filtered all_below
filtered-skip true m b j p q on e hit =
    ground (arith, bit-u8 (bit_and b m) j, bit-and b m j, ap (λ (x : ℕ). bit x j) e, zero-bit j)
filtered-skip false m b j p q on e hit = ground (
  arith,
  bit-u8 (bit_or b (not32 m)) j,
  bit-or b (not32 m) j,
  bit-not32 m j,
  ap (λ (x : ℕ). bit x j) e,
  bit-full j,
)
  where
    bit-full : (i : ℕ) → i < 8 → bit 255 i ≡ 1
    bit-full i h = (==_iff _ _).0 (all_below_sound 8 (λ i. bit 255 i == 1) i refl h)

-- What the filter does to a single bit.
pub bit-filtered :
    (v : Bool) (m b j : ℕ)
    → m < 256
    → j < 8
    → bit (filtered v m b) j ≡ (if bit m j == 1 then bit b j else 1 - bit_of v)
unfolding filtered all_below
bit-filtered true m b j p q =
    ground (arith, bit-u8 (bit_and b m) j, bit-and b m j, bit-lt_two b j, bit-lt_two m j)
bit-filtered false m b j p q = ground (
  arith,
  bit-u8 (bit_or b (not32 m)) j,
  bit-or b (not32 m) j,
  bit-not32 m j,
  bit-lt_two b j,
  bit-lt_two m j,
)
